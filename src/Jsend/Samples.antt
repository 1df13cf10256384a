-- ===== src/Jsend/Samples.antt =====
-- A listing of five rows in pages of two.
use jobserv.Prelude.{ℕ, ◌≡◌, refl, List, [], ◌∷◌, none, some}
use jobserv.Jsend.{page_of, paginate_custom, ok}

abbrev rows : List ℕ
rows = 5 ∷ 6 ∷ 7 ∷ 8 ∷ 9 ∷ []

last_page : (page_of 2 2 rows (λ n. n)).items ≡ 9 ∷ []
unfolding page_of
last_page = refl

by_default : paginate_custom (λ t. none) none none rows (λ n. n) ≡ ok (page_of 25 0 rows (λ n. n))
unfolding paginate_custom page_of
by_default = refl

not_numeric :
    paginate_custom (λ t. none) (some "x") none rows (λ n. n)
    ≡ paginate_custom (λ t. none) (some "y") none rows (λ n. n)
unfolding paginate_custom
not_numeric = refl
