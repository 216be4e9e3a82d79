-- ===== src/Routes/Sessions/Shown.antt =====
-- The writes of the session routes, as the routes that read a session show them.
use ai_kaeyris.Prelude.{ℕ, ◌≡◌, refl, true, some, arith, ok, inl, inr, Option-cases}
use ai_kaeyris.Text.{Text}
use ai_kaeyris.Models.{Db, Session, Transcription}
use ai_kaeyris.Repositories.{set_edited_transcript}
use ai_kaeyris.Auth.{AuthenticatedKey}
use ai_kaeyris.Access.{resolve_session_for_gm}
use ai_kaeyris.Access.Updated.{resolve_session_for_gm-update_session_row}
use ai_kaeyris.Sessions.{save_session_transcription_edit}
use ai_kaeyris.Routes.Sessions.{put_transcription_edit}
use ai_kaeyris.Routes.Sessions.Reading.{get_transcription_md}
use ai_kaeyris.Access.Sight.{resolve_session_for_gm-IsLetIn}

-- The Markdown export of a transcription that was edited is the edited text, to the letter, whatever
-- the mode of the session and whatever was transcribed.
pub put_transcription_edit-is_exported :
    (render : Session → Transcription → Text) (content : Text) (sid : ℕ) (auth : AuthenticatedKey)
    (db db' : Db)
    → put_transcription_edit content sid auth db ≡ ok db'
    → get_transcription_md render sid auth db' ≡ ok content
unfolding put_transcription_edit get_transcription_md save_session_transcription_edit
    set_edited_transcript
put_transcription_edit-is_exported render content sid auth db db' done =
    elim (Option-cases (resolve_session_for_gm sid auth true db)) [
      | inl unseen ↦ ground arith
      | inr (s, seen) ↦ ground (
        arith,
        (resolve_session_for_gm-IsLetIn sid auth true db s seen).0,
        resolve_session_for_gm-update_session_row
            (λ r. record r { edited_transcript_md = some content }) s.id auth true db s
            (λ r. (refl, refl, refl)),
      )
    ]
