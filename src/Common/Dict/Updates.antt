-- ===== src/Common/Dict/Updates.antt =====
-- Updates of a dictionary that leave it as it was, and Boolean invariants of its entries.
use genesis_core.Common.{
  not, ◌≡◌, refl, Bool, true, false, none, some, [], ◌∷◌, arith, ◌&&◌, Option,
}
use genesis_core.Common.Dict.{KeyType, Dict, get, put, remove, same_refl, get-put}

module _ {K V : Type 0} ⦃e : KeyType K⦄ where
  remove_absent : (k : K) (d : Dict K V) → get k d ≡ none → remove k d ≡ d
  unfolding get remove
  remove_absent k [] h = refl
  remove_absent k ((j, w) ∷ d) h = ground (arith, remove_absent k d)

  -- A new entry is removed without a trace.
  pub remove-put : (k : K) (v : V) (d : Dict K V) → get k d ≡ none → remove k (put k v d) ≡ d
  unfolding get remove put
  remove-put k v [] h = ground (arith, same_refl k)
  remove-put k v ((j, w) ∷ d) h = ground (arith, remove-put k v d)

  -- The later value stands.
  pub put-put : (k : K) (v w : V) (d : Dict K V) → put k w (put k v d) ≡ put k w d
  unfolding put
  put-put k v w [] = ground (arith, same_refl k)
  put-put k v w ((j, u) ∷ d) = ground (arith, put-put k v w d)

  -- The value that is there already changes nothing.
  pub put-get : (k : K) (v : V) (d : Dict K V) → get k d ≡ some v → put k v d ≡ d
  unfolding put get
  put-get k v [] h = cc
  put-get k v ((j, u) ∷ d) h = ground (arith, e.same_iff j k, put-get k v d)

  abbrev pub all_entries : (K → V → Bool) → Dict K V → Bool
  all_entries p [] = true
  all_entries p ((k, v) ∷ d) = p k v && all_entries p d

  pub all_entries-get :
      (p : K → V → Bool) (k : K) (v : V) (d : Dict K V)
      → all_entries p d ≡ true
      → get k d ≡ some v
      → p k v ≡ true
  unfolding get
  all_entries-get p k v [] h g = cc
  all_entries-get p k v ((j, u) ∷ d) h g = ground (arith, e.same_iff j k, all_entries-get p k v d)

  pub all_entries-put :
      (p : K → V → Bool) (k : K) (v : V) (d : Dict K V)
      → all_entries p d ≡ true
      → p k v ≡ true
      → all_entries p (put k v d) ≡ true
  unfolding put
  all_entries-put p k v [] h g = ground arith
  all_entries-put p k v ((j, u) ∷ d) h g = ground (arith, e.same_iff j k, all_entries-put p k v d)

  pub all_entries-remove :
      (p : K → V → Bool) (k : K) (d : Dict K V)
      → all_entries p d ≡ true
      → all_entries p (remove k d) ≡ true
  unfolding remove
  all_entries-remove p k [] h = refl
  all_entries-remove p k ((j, u) ∷ d) h = ground (arith, all_entries-remove p k d)

abbrev pub is_present : {V : Type 0} → Option V → Bool
is_present none = false
is_present (some v) = true

module _ {K V : Type 0} ⦃e : KeyType K⦄ where
  -- No key stands twice.
  abbrev pub distinct : Dict K V → Bool
  distinct [] = true
  distinct ((k, v) ∷ d) = not (is_present (get k d)) && distinct d

  pub distinct-put :
      (k : K) (v : V) (d : Dict K V) → distinct d ≡ true → distinct (put k v d) ≡ true
  unfolding put
  distinct-put k v [] h = unfold get in refl
  distinct-put k v ((j, w) ∷ d) h =
      ground (arith, e.same_iff j k, e.same_iff k j, get-put k j v d, distinct-put k v d)
