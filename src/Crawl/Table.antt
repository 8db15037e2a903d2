-- ===== src/Crawl/Table.antt =====
-- Job tables with distinct ids, as the primary key of `crawl_jobs` keeps them, and sets of named
-- jobs within them.
use find_verse.Crawl.Rows.{Job}
use find_verse.Crawl.Frontier.{Ranked, names_job}
use find_verse.Prelude.{
  ◌≤◌, List, [], ◌∷◌, ◌≡◌, ◌≢◌, refl, sym, ap, ◌∙◌, true, Bool-cases, inl, inr, Bool, ◌&&◌, str_eq,
  eq_iff, eq_refl, subst, count_where, count_where_never, count_where-or-le, Elem, Elem-All, All,
  arith, if◌then◌else◌,
}

abbrev pub HasUniqueIds : List Job → Type 0
HasUniqueIds [] = Unit
HasUniqueIds (j ∷ js) = All (λ k. j.id ≢ k.id) js × HasUniqueIds js

none_named :
    (c : Job) (q : Job → Bool) (jobs : List Job)
    → All (λ k. c.id ≢ k.id) jobs
    → count_where (λ j. str_eq c.id j.id && q j) jobs ≡ 0
none_named c q [] h = refl
none_named c q (x ∷ xs) h = ground (arith, none_named c q xs, eq_iff c.id x.id)

one_named :
    (c : Job) (q : Job → Bool) (jobs : List Job)
    → HasUniqueIds jobs
    → Elem c jobs
    → count_where (λ j. str_eq c.id j.id && q j) jobs ≤ (if q c then 1 else 0)
one_named c q [] u m = absurd m
one_named c q (x ∷ xs) u (inl e) =
    subst (λ d. count_where (λ j. str_eq d.id j.id && q j) (x ∷ xs) ≤ (if q d then 1 else 0)) e
      (ground (arith, none_named x q xs u.0, eq_refl x.id))
one_named c q (x ∷ xs) u (inr m) =
    ground (arith, one_named c q xs, Elem-All (λ k. x.id ≢ k.id) c xs u.0 m, eq_iff c.id x.id)

-- Distinct ids make at most one row of each chosen row.
pub count_where-names_job-le :
    (q : Job → Bool) (rows : List Ranked) (jobs : List Job)
    → HasUniqueIds jobs
    → All (λ r. Elem r.job jobs) rows
    → count_where (λ j. names_job rows j && q j) jobs ≤ count_where (λ r. q r.job) rows
count_where-names_job-le q [] jobs u h = omega (arith, count_where_never jobs)
count_where-names_job-le q (r ∷ rs) jobs u h = ground (
  arith,
  count_where-or-le (λ j. str_eq r.job.id j.id) (names_job rs) q jobs,
  one_named r.job q jobs u h.0,
  count_where-names_job-le q rs jobs u h.1,
)

-- Two rows with one id are one row.
same_row :
    (a b : Job) (jobs : List Job)
    → HasUniqueIds jobs
    → Elem a jobs
    → Elem b jobs
    → a.id ≡ b.id
    → a ≡ b
same_row a b [] u m n e = absurd m
same_row a b (x ∷ xs) u (inl p) (inl q) e = sym p ∙ q
same_row a b (x ∷ xs) u (inl p) (inr n) e =
    absurd (Elem-All (λ k. x.id ≢ k.id) b xs u.0 n (ap (λ (j : Job). j.id) p ∙ e))
same_row a b (x ∷ xs) u (inr m) (inl q) e =
    absurd (Elem-All (λ k. x.id ≢ k.id) a xs u.0 m (ap (λ (j : Job). j.id) q ∙ sym e))
same_row a b (x ∷ xs) u (inr m) (inr n) e = same_row a b xs u.1 m n e

-- What holds of the chosen rows holds of every row that they name.
pub named_row :
    (P : Job → Type 0) (rows : List Ranked) (jobs : List Job)
    → HasUniqueIds jobs
    → All (λ r. Elem r.job jobs × P r.job) rows
    → (j : Job) → Elem j jobs
    → names_job rows j ≡ true
    → P j
named_row P [] jobs u h j m t = cc
named_row P (r ∷ rs) jobs u h j m t = elim (Bool-cases (str_eq r.job.id j.id)) [
  | inl same ↦ subst P (same_row r.job j jobs u h.0.0 m ((eq_iff r.job.id j.id).0 same)) h.0.1
  | inr other ↦ named_row P rs jobs u h.1 j m (ground arith)
]
