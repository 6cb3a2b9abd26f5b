-- ===== src/Log/Ends.antt =====
-- `format_string` of kernel/core/log.cpp ends also where the buffer is too small for the text.
use planetoid_os.Base.{ℕ, ◌≡◌, Option, none, some}
use planetoid_os.Log.{Text, Buffer, Progress}
use planetoid_os.Log.Render.{Piece, Words}

-- The directive takes the arguments that its piece of text takes.
abbrev Advances : Piece → Option Progress → Type 0
Advances none p = Unit
Advances (some (args, text)) p =
    (pos : ℕ) × (out : Buffer) × (p ≡ some (args, pos, out)) × Words args

-- The loop ends where the format has a text.
abbrev Ends : Option Text → Option Buffer → Type 0
Ends none r = Unit
Ends (some text) r = (out : Buffer) × (r ≡ some out)
