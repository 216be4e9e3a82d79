-- ===== src/Sessions/Upload.antt =====
-- The streaming upload.
use ai_kaeyris.Prelude.{◌<◌, length}
use ai_kaeyris.Text.{Text}

-- Each read but the last brings something.
abbrev NonEmpty : Text → Type 0
NonEmpty t = 0 < length t
