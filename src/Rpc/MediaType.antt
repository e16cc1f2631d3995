-- ===== src/Rpc/MediaType.antt =====
-- The media type of a `Content-Type` header, as `ServeHTTP` of proto/quotacontrol.gen.go takes it.
use quotacontrol.Prelude.{ℕ, Bool, [], ◌∷◌, nat_beq, ◌&&◌, ◌||◌, ◌+◌, leb, is_empty, if◌then◌else◌}
use quotacontrol.Prelude.Text.{Text}

-- The media type of a `Content-Type`: up to a semicolon, in lower case, without spaces round it.
unfoldable pub before_semicolon : Text → Text
before_semicolon [] = []
before_semicolon (c ∷ t) = let rest = before_semicolon t in if nat_beq c b';' then [] else c ∷ rest

unfoldable pub lower : Text → Text
lower [] = []
lower (c ∷ t) = (if leb b'A' c && leb c b'Z' then c + 32 else c) ∷ lower t

-- `strings.TrimSpace`, of ASCII.
abbrev pub is_space : ℕ → Bool
is_space c = nat_beq c 32 || (leb 9 c && leb c 13)

unfoldable pub trim_left : Text → Text
trim_left [] = []
trim_left (c ∷ t) = let rest = trim_left t in if is_space c then rest else c ∷ t

unfoldable pub trim_right : Text → Text
trim_right [] = []
trim_right (c ∷ t) = let rest = trim_right t in if is_space c && is_empty rest then [] else c ∷ rest

unfoldable pub media_type : Text → Text
unfolding before_semicolon lower trim_left trim_right
media_type t = trim_left (trim_right (lower (before_semicolon t)))
