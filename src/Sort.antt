-- ===== src/Sort.antt =====
-- `Vec::<String>::sort`: by the bytes of the texts, which for UTF-8 is by their code points.
use github_oidc_exchange.Prelude.{
  List, [], ◌∷◌, Bool, true, false, ltb, ◌==◌, nat_eq, if◌then◌else◌,
}
use github_oidc_exchange.Text.{Text}

unfoldable pub text_le : Text → Text → Bool
text_le [] t = true
text_le (c ∷ s) [] = false
text_le (c ∷ s) (d ∷ t) = if c == d then text_le s t else ltb c d

unfoldable pub insert_sorted : Text → List Text → List Text
unfolding text_le
insert_sorted s [] = s ∷ []
insert_sorted s (t ∷ ts) = if text_le s t then s ∷ t ∷ ts else t ∷ insert_sorted s ts

unfoldable pub sort : List Text → List Text
unfolding insert_sorted
sort [] = []
sort (s ∷ ss) = insert_sorted s (sort ss)
