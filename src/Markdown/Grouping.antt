-- ===== src/Markdown/Grouping.antt =====
-- The turns of the speakers, as the export of a transcription groups them.
use ai_kaeyris.Prelude.{
  ℕ, ◌≡◌, ◌≢◌, ◌⊎◌, ◌+◌, ◌≤◌, Bool, true, arith, select, refl, sym, ap, ap₂, subst, ◌∙◌, false,
  List, [], ◌∷◌, ◌++◌, map, concat, append_assoc, select-append, inl, inr, Bool-cases,
}
use ai_kaeyris.Text.{Text, text_eq, lstrip, rstrip, is_space, solid}
use ai_kaeyris.Text.Equality.{text_eq_refl, text_eq-eq}
use ai_kaeyris.Text.Strip.{solid-lstrip, solid-rstrip, solid-strip}
use ai_kaeyris.Models.{Segment}
use ai_kaeyris.Markdown.{merge, continues, group_from, group_consecutive_speaker_segments}

-- A turn is by another speaker than the one before it, or starts no earlier than the gap after its
-- end.
abbrev pub AreApart : ℕ → List Segment → Type 0
AreApart gap [] = Unit
AreApart gap (a ∷ []) = Unit
AreApart gap (a ∷ b ∷ turns) =
    ((a.speaker_label ≢ b.speaker_label) ⊎ (a.end_time + gap ≤ b.start_time))
    × AreApart gap (b ∷ turns)

-- What is said, without the white space.
abbrev pub said : List Segment → Text
said segments = solid (concat (map (λ s. s.text) segments))

-- What one speaker says.
abbrev pub said_by : Text → List Segment → Text
said_by label segments = said (select (λ s. text_eq s.speaker_label label) segments)

not_both : {b : Bool} {A : Type 0} → b ≡ false → b ≡ true → A
not_both f t = cc

apart_not-continues :
    (gap : ℕ) (a b : Segment)
    → (a.speaker_label ≢ b.speaker_label) ⊎ (a.end_time + gap ≤ b.start_time)
    → continues gap a b ≡ false
apart_not-continues gap a b (inl others) =
    elim (Bool-cases (text_eq b.speaker_label a.speaker_label)) [
      | inl same ↦ absurd (others (sym (text_eq-eq b.speaker_label a.speaker_label same)))
      | inr other ↦ rw other refl
    ]
apart_not-continues gap a b (inr late) = ground (arith, late)

not-continues_apart :
    (gap : ℕ) (a b : Segment)
    → continues gap a b ≡ false
    → (a.speaker_label ≢ b.speaker_label) ⊎ (a.end_time + gap ≤ b.start_time)
not-continues_apart gap a b h = elim (Bool-cases (text_eq b.speaker_label a.speaker_label)) [
  | inl same ↦ inr (ground (arith, h, same))
  | inr other ↦
      inl
        λ e. not_both (ap (λ l. text_eq l a.speaker_label) e ∙ other) (text_eq_refl a.speaker_label)
]

continues-same :
    (gap : ℕ) (a b : Segment) → continues gap a b ≡ true → b.speaker_label ≡ a.speaker_label
continues-same gap a b h = text_eq-eq b.speaker_label a.speaker_label (ground (arith, h))

-- The first turn starts with the segment that opens it, by the same speaker.
starts_with_last :
    (gap : ℕ) (last : Segment) (segments : List Segment)
    → (turn : Segment) × (turns : List Segment) × (group_from gap last segments ≡ turn ∷ turns)
      × (turn.speaker_label ≡ last.speaker_label)
      × (turn.start_time ≡ last.start_time)
unfolding group_from
starts_with_last gap last [] = (last, [], refl, refl, refl)
starts_with_last gap last (seg ∷ segments) = elim (Bool-cases (continues gap last seg)) [
  | inl joined ↦
      let (turn, turns, e, label, start) = starts_with_last gap (merge last seg) segments in
      (turn, turns, rw joined e, label, start)
  | inr apart ↦ (last, group_from gap seg segments, rw apart refl, refl, refl)
]

group_from-AreApart :
    (gap : ℕ) (last : Segment) (segments : List Segment)
    → AreApart gap (group_from gap last segments)
unfolding group_from
group_from-AreApart gap last [] = tt
group_from-AreApart gap last (seg ∷ segments) = elim (Bool-cases (continues gap last seg)) [
  | inl joined ↦ rw joined (group_from-AreApart gap (merge last seg) segments)
  | inr apart ↦
      let (turn, turns, e, label, start) = starts_with_last gap seg segments in
      let rest = subst (AreApart gap) e (group_from-AreApart gap seg segments) in
      rw (apart, e) (not-continues_apart gap last turn (rw (label, start) apart), rest)
]

solid-append : (s t : Text) → solid (s ++ t) ≡ solid s ++ solid t
solid-append s t = select-append _ s t

said-merge : (last seg : Segment) → solid (merge last seg).text ≡ solid last.text ++ solid seg.text
unfolding is_space
said-merge last seg =
    solid-strip (rstrip last.text ++ 32 ∷ lstrip seg.text)
    ∙ (solid-append (rstrip last.text) (32 ∷ lstrip seg.text)
        ∙ ap₂ ◌++◌ (solid-rstrip last.text) (solid-lstrip seg.text))

said-cons :
    (seg : Segment) (segments : List Segment)
    → said (seg ∷ segments) ≡ solid seg.text ++ said segments
said-cons seg segments = solid-append seg.text (concat (map (λ s. s.text) segments))

said-joined :
    (last seg : Segment) (segments : List Segment)
    → said (merge last seg ∷ segments) ≡ said (last ∷ seg ∷ segments)
said-joined last seg segments =
    said-cons (merge last seg) segments
    ∙ (ap (λ t. t ++ said segments) (said-merge last seg)
        ∙ (append_assoc (solid last.text) (solid seg.text) (said segments)
            ∙ (ap (◌++◌ (solid last.text)) (sym (said-cons seg segments))
                ∙ sym (said-cons last (seg ∷ segments)))))

said-group_from :
    (gap : ℕ) (last : Segment) (segments : List Segment)
    → said (group_from gap last segments) ≡ said (last ∷ segments)
unfolding group_from
said-group_from gap last [] = refl
said-group_from gap last (seg ∷ segments) = elim (Bool-cases (continues gap last seg)) [
  | inl joined ↦
      rw joined (said-group_from gap (merge last seg) segments ∙ said-joined last seg segments)
  | inr apart ↦ rw apart (
      said-cons last (group_from gap seg segments)
      ∙ (ap (◌++◌ (solid last.text)) (said-group_from gap seg segments)
          ∙ sym (said-cons last (seg ∷ segments))))
]

said_by-joined :
    (label : Text) (last seg : Segment) (segments : List Segment)
    → seg.speaker_label ≡ last.speaker_label
    → said_by label (merge last seg ∷ segments) ≡ said_by label (last ∷ seg ∷ segments)
said_by-joined label last seg segments same = elim (Bool-cases (text_eq last.speaker_label label)) [
  | inl his ↦
      let too = ap (λ l. text_eq l label) same ∙ his in
      rw (his, too) (said-joined last seg (select (λ s. text_eq s.speaker_label label) segments))
  | inr other ↦ let too = ap (λ l. text_eq l label) same ∙ other in rw (other, too) refl
]

-- The same, of what one speaker says.
said_by-group_from :
    (label : Text) (gap : ℕ) (last : Segment) (segments : List Segment)
    → said_by label (group_from gap last segments) ≡ said_by label (last ∷ segments)
unfolding group_from
said_by-group_from label gap last [] = refl
said_by-group_from label gap last (seg ∷ segments) = elim (Bool-cases (continues gap last seg)) [
  | inl joined ↦
      let same = continues-same gap last seg joined in
      rw joined (
        said_by-group_from label gap (merge last seg) segments
        ∙ said_by-joined label last seg segments same)
  | inr apart ↦ rw apart (elim (Bool-cases (text_eq last.speaker_label label)) [
    | inl his ↦ rw his (
        said-cons last (select (λ s. text_eq s.speaker_label label) (group_from gap seg segments))
        ∙ (ap (◌++◌ (solid last.text)) (said_by-group_from label gap seg segments)
            ∙ sym (said-cons last (select (λ s. text_eq s.speaker_label label) (seg ∷ segments)))))
    | inr other ↦ rw other (said_by-group_from label gap seg segments)
  ])
]

group_from_apart :
    (gap : ℕ) (a : Segment) (turns : List Segment)
    → AreApart gap (a ∷ turns)
    → group_from gap a turns ≡ a ∷ turns
unfolding group_from
group_from_apart gap a [] h = refl
group_from_apart gap a (b ∷ turns) (apart, h) =
    rw (apart_not-continues gap a b apart) (ap (◌∷◌ a) (group_from_apart gap b turns h))

-- What the export promises of the turns.
pub record AreTurns (gap : ℕ) (segments turns : List Segment) : Type 0 where
  pub apart : AreApart gap turns
  pub all_said : said turns ≡ said segments
  pub by_speaker : (label : Text) → said_by label turns ≡ said_by label segments
  pub settled : group_consecutive_speaker_segments gap turns ≡ turns

-- The export groups the segments of a transcription into turns: every character that is no white
-- space is kept, in order, and what each speaker says is kept under its own label; a turn is by
-- another speaker than the one before it or starts no earlier than the limit after its end; and
-- grouping the turns again changes nothing.
pub group_consecutive_speaker_segments-AreTurns :
    (gap : ℕ) (segments : List Segment)
    → AreTurns gap segments (group_consecutive_speaker_segments gap segments)
unfolding group_consecutive_speaker_segments
group_consecutive_speaker_segments-AreTurns gap [] = record {
  apart = tt;
  all_said = refl;
  by_speaker = λ label. refl;
  settled = refl;
}
group_consecutive_speaker_segments-AreTurns gap (seg ∷ segments) =
    let (turn, turns, e, label, start) = starts_with_last gap seg segments in
    let apart = group_from-AreApart gap seg segments in
    record {
      apart = apart;
      all_said = said-group_from gap seg segments;
      by_speaker = λ label. said_by-group_from label gap seg segments;
      settled = rw e (group_from_apart gap turn turns (subst (AreApart gap) e apart));
    }
