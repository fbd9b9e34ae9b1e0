-- ===== src/Tests/Strings.antt =====
-- The theorem on `strtok_r` (lib/string.c), at "  ab c" with the delimiter " ".
use project_pintos.Base.{ℕ, List, [], ◌∷◌, ◌≡◌, refl, some}
use project_pintos.Strings.{strtok_r}
use project_pintos.Strings.Tokens.{Tokenized, strtok_r_lem}

abbrev line : List ℕ
line = 32 ∷ 32 ∷ 97 ∷ 98 ∷ 32 ∷ 99 ∷ []

first_token : strtok_r (32 ∷ []) line ≡ (some (97 ∷ 98 ∷ []), 99 ∷ [])
unfolding strtok_r
first_token = refl

strtok_r_lem_example :
    Tokenized (32 ∷ []) line (strtok_r (32 ∷ []) line).0 (strtok_r (32 ∷ []) line).1
strtok_r_lem_example = strtok_r_lem (32 ∷ []) line
