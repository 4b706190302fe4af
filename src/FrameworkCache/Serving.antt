-- ===== src/FrameworkCache/Serving.antt =====
-- Which of the cached documents are returned.
use content_based.Base.{
  subst, All, ltb→le, ◌≡◌, refl, sym, ap, ◌∙◌, inl, inr, true, false, Option, none, some, List, [],
  ◌∷◌, ◌++◌, ℕ, zero, suc, ◌+◌, ◌-◌, ◌*◌, ◌%◌, ◌≤◌, ℤ, pos, ◌-ℤ◌, ltb, ltb_ℤ, length, take, arith,
  Bool-cases,
}
use content_based.FrameworkCache.{
  Cached, CacheOptions, CacheTable, serve, serve_fresh, returned_count, drop, get, put,
}

-- A table that gives back what was added last for a user, if adding it returned 0.
pub record IsKeptCache {K : Type 0} (table : CacheTable K) : Type 0 where
  pub holds : ℕ → K → Option Cached
  pub popped : (u : ℕ) (k : K) → (table.pop_value u k).0 ≡ holds u k
  pub added :
      (u : ℕ) (c : Cached) (k : K)
      → (table.add u c k).0 ≡ pos 0
      → holds u (table.add u c k).1 ≡ some c

-- The smaller of two numbers.
abbrev least : ℕ → ℕ → ℕ
least a b = a - (a - b)

-- One call of `get`, by the time, the draw and the number of documents that are asked for.
pub record Call : Type 0 where
  pub now : ℤ
  pub draw : ℕ
  pub req_num : ℕ

-- What calls of `get` hand out of a list: each the next documents, 3 to 6 as the draw says, but no
-- more than are asked for and are left.
unfoldable pub handed_out : List Call → List ℕ → List ℕ
handed_out [] ids = []
handed_out (c ∷ cs) ids =
    let n = least (least (3 + c.draw % 4) c.req_num) (length ids) in
    take n ids ++ handed_out cs (drop n ids)

returned_count-least :
    (draw req_num num : ℕ)
    → returned_count draw req_num num ≡ least (least (3 + draw % 4) req_num) num
unfolding returned_count
returned_count-least draw req_num num = ground arith

module _ {K : Type 0} (table : CacheTable K) (kept : IsKeptCache table) (opts : CacheOptions) where
  -- Calls of `get` for one user, one after the other: all that they return.
  unfoldable pub get_all : ℕ → List Call → K → Option (List ℕ × K)
  get_all u [] k = some ([], k)
  get_all u (c ∷ cs) k = elim (get table opts c.now c.draw u c.req_num k) [
    | none ↦ none
    | some (code, (ids, k')) ↦ elim (get_all u cs k') [
      | none ↦ none
      | some (more, k'') ↦ some (ids ++ more, k'')
    ]
  ]

  -- A call that comes in time.
  abbrev pub InTime : ℤ → Call → Type 0
  InTime update_time c = ltb_ℤ (c.now -ℤ update_time) opts.flush_time ≡ true

  -- What a call leaves of the documents of a user.
  record IsServed (u : ℕ) (call : Call) (c : Cached) (ids : List ℕ) (k : K) : Type 0 where
    left : Cached
    holds_left : kept.holds u k ≡ some left
    returned : ids ≡ take (returned_count call.draw call.req_num (length c.ids)) c.ids
    remains : left.ids ≡ drop (returned_count call.draw call.req_num (length c.ids)) c.ids
    same_time : left.update_time ≡ c.update_time
    fewer : length left.ids ≤ length c.ids

  length-drop : (n : ℕ) (xs : List ℕ) → length (drop n xs) ≤ length xs
  length-drop zero xs = omega arith
  length-drop (suc n) [] = omega arith
  length-drop (suc n) (x ∷ xs) = omega (arith, length-drop n xs)

  fits : (a b : ℕ) → 12 + a * 8 ≤ 1024 → ltb 2048 (12 + (a - b) * 8) ≡ false
  fits a b h = ground arith

  -- No call of `add` fails.
  abbrev Adds : Type 0
  Adds = (u : ℕ) (c : Cached) (k : K) → (table.add u c k).0 ≡ pos 0

  get-IsServed :
      (u : ℕ) (call : Call) (k : K) (c : Cached)
      → Adds
      → kept.holds u k ≡ some c
      → InTime c.update_time call
      → 12 + length c.ids * 8 ≤ 1024
      → (r : Option ℤ × (List ℕ × K)) × (get table opts call.now call.draw u call.req_num k
          ≡ some r)
        × IsServed u call c r.1.0 r.1.1
  unfolding get serve serve_fresh
  get-IsServed u call k c adds held in_time short =
      rw
        (
          get,
          kept.popped u k ∙ held,
          serve,
          in_time,
          serve_fresh,
          fits (length c.ids) (returned_count call.draw call.req_num (length c.ids)) short,
        )
        (
          _,
          refl,
          record {
            left = _;
            holds_left = kept.added u _ _ (adds u _ _);
            returned = refl;
            remains = refl;
            same_time = refl;
            fewer = length-drop _ c.ids;
          },
        )

  get_all-next :
      (u : ℕ) (call : Call) (calls : List Call) (k : K) (r : Option ℤ × (List ℕ × K))
      (q : List ℕ × K)
      → get table opts call.now call.draw u call.req_num k ≡ some r
      → get_all u calls r.1.1 ≡ some q
      → get_all u (call ∷ calls) k ≡ some (r.1.0 ++ q.0, q.1)
  unfolding get_all
  get_all-next u call calls k r q e e' = rw (get_all, e, e') refl

  get_all-handed_out :
      (u : ℕ) (calls : List Call) (k : K) (c : Cached)
      → Adds
      → kept.holds u k ≡ some c
      → All (InTime c.update_time) calls
      → 12 + length c.ids * 8 ≤ 1024
      → (k' : K) × (get_all u calls k ≡ some (handed_out calls c.ids, k'))
  unfolding get_all handed_out
  get_all-handed_out u [] k c adds held h short = (k, refl)
  get_all-handed_out u (call ∷ calls) k c adds held h short =
      let (r, e, s) = get-IsServed u call k c adds held h.0 short in
      let n = returned_count-least call.draw call.req_num (length c.ids) in
      let (k', e') =
        get_all-handed_out u calls r.1.1 s.left adds s.holds_left
          (subst (λ t. All (InTime t) calls) (sym s.same_time) h.1)
          (omega (arith, short, s.fewer)) in
      (
        k',
        get_all-next u call calls k r (handed_out calls s.left.ids, k') e e'
            ∙ ap (λ l. some (l, k'))
                (ap (λ l. l ++ handed_out calls s.left.ids) (s.returned ∙ ap (λ m. take m c.ids) n)
                  ∙ ap
                      (λ l.
                        take (least (least (3 + call.draw % 4) call.req_num) (length c.ids)) c.ids
                        ++ handed_out calls l)
                      (s.remains ∙ ap (λ m. drop m c.ids) n)),
      )

  -- If no call of `add` fails, then after documents were put for a user, calls of `get` for that
  -- user that come in time return them in their order, each once: each call the next ones, 3 to 6
  -- of them as the draw says, but no more than are asked for and are left.
  pub get_all-put :
      (u : ℕ) (now : ℤ) (lst : List ℕ) (calls : List Call) (k : K) (r : ℤ × K)
      → Adds
      → put table opts now u lst k ≡ some r
      → All (InTime now) calls
      → (k' : K) × (get_all u calls r.1 ≡ some (handed_out calls lst, k'))
  unfolding put
  get_all-put u now lst calls k r adds = elim (Bool-cases (ltb 1024 (12 + length lst * 8))) [
    | inl e ↦ rw (put, e) λ run. absurd (none_not_some run)
    | inr e ↦
        rw (put, e)
          λ run h.
            get_all-handed_out u calls r.1
              (record { search_time = pos 0; update_time = now; ids = lst }) adds
              (ap (λ k'. kept.holds u k') (sym (ap (λ p. p.1) (some_same run)))
                ∙ kept.added u _ k (adds u _ k))
              h (ltb→le _ _ e)
  ]
    where
      none_not_some : {r : ℤ × K} → none ≡ some r → ⊥
      none_not_some e = cc

      some_same : {a b : ℤ × K} → some a ≡ some b → a ≡ b
      some_same e = cc
