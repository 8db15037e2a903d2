-- ===== src/Crawl/Enqueue/Loop.antt =====
-- One rule for the loop of `enqueue_urls`: what every insertion keeps, the loop keeps.
use find_verse.External.{Platform}
use find_verse.Crawl.Enqueue.{EnqueueRequest, Queue, insert_url, admit, offer_url, enqueue_loop}
use find_verse.Prelude.{ℕ, suc, max, List, [], ◌∷◌, String, leb, if_elim, Option-cases, inl, inr}

module _ {κ} (platform : Platform) (blacklist : List String) (r : EnqueueRequest) (now : ℕ)
    (P : Queue → Type κ)
    (keep : (id : String) (q : Queue) (found : String × String)
      → P q
      → P (insert_url platform r now id q found)) where
  offer_url_inv :
      (id : String) (q : Queue) (url : String)
      → P q
      → P (offer_url platform blacklist r now id q url)
  unfolding offer_url
  offer_url_inv id q url h = elim (Option-cases (admit platform blacklist url)) [
    | inl e ↦ rw (e, offer_url) h
    | inr (found, e) ↦ rw (e, offer_url) (keep id q found h)
  ]

  pub enqueue_loop_inv :
      (new_id : ℕ → String) (n : ℕ) (urls : List String) (q : Queue)
      → P q
      → P (enqueue_loop platform blacklist r now new_id n urls q)
  unfolding enqueue_loop
  enqueue_loop_inv new_id n [] q h = h
  enqueue_loop_inv new_id n (url ∷ urls) q h =
      if_elim P (leb (max r.max_pages 1) q.budget_used) (λ _. h)
        (λ _. enqueue_loop_inv new_id (suc n) urls _ (offer_url_inv (new_id n) q url h))
