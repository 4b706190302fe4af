-- ===== src/FrameworkModule/Intervals.antt =====
-- When a model is saved and trained, and what a thread that is started again goes on from.
use native.Mathlib.Nat.{add-mod_right, mod-eq_of_lt}
use content_based.Base.{
  ◌≡◌, refl, sym, ap, subst, ◌∙◌, inl, inr, Bool, true, false, some, List, [], ◌∷◌, if◌then◌else◌,
  ℕ, suc, ◌==◌, ◌+◌, ◌-◌, ◌*◌, ◌%◌, ◌^◌, ◌≤◌, ◌<◌, ℤ, pos, ltb, leb, ltb→le, ltb→lt, ◌==ℤ◌,
  Bool-cases, arith,
}
use content_based.Storage.{Bytes}
use content_based.FrameworkModule.{Interface, Wire}
use content_based.FrameworkModule.Timers.{
  FlagFile, Keeper, stamp_or_zero, elapsed, start, stamped, persistent_turn, newest, train_turn,
}

-- What is relied on of a model: it can be told from its state how often it was saved with success.
pub record CountsSaves {F S : Type 0} {w : Wire} (model : Interface F w S) : Type 0 where
  pub saved : S → ℕ
  pub succeeded :
      (s : S)
      → ((model.persistent_library s).0 ==ℤ pos 0) ≡ true
      → saved (model.persistent_library s).1 ≡ suc (saved s)
  pub failed :
      (s : S)
      → ((model.persistent_library s).0 ==ℤ pos 0) ≡ false
      → saved (model.persistent_library s).1 ≡ saved s

eq_same : (a b : ℕ) → a ≡ b → (a == b) ≡ true
eq_same a b h = ground arith

eq_suc : (a b : ℕ) → a ≡ suc b → (a == b) ≡ false
eq_suc a b h = ground arith

-- A number that was written is read back, or the file could not be opened, and is as it was.
pub record IsKeptFile {D : Type 0} (flag : FlagFile D) : Type 0 where
  pub opens : D → Bool
  pub read_back : (n : ℕ) (d : D) → opens d ≡ true → flag.read_stamp (flag.write_stamp n d) ≡ some n

leb_refl : (a : ℕ) → leb a a ≡ true
leb_refl a = ground arith

-- The newest of the folders is found again.
newest-ge : (a : ℕ) (l : List ℕ) → a ≤ newest a l
unfolding newest
newest-ge a [] = omega arith
newest-ge a (t ∷ l) = elim (Bool-cases (ltb a t)) [
  | inl e ↦ rw e (omega (arith, newest-ge t l, ltb→lt a t e))
  | inr e ↦ rw e (newest-ge a l)
]

newest_keeps : (b a : ℕ) (l : List ℕ) → newest a l ≤ b → newest b l ≡ b
unfolding newest
newest_keeps b a [] = λ h. refl
newest_keeps b a (t ∷ l) = elim (Bool-cases (ltb b t)) [
  | inl e ↦ elim (Bool-cases (ltb a t)) [
    | inl e' ↦ rw (e, e') λ h. absurd (omega (arith, newest-ge t l, ltb→lt b t e, h))
    | inr e' ↦ rw (e, e') λ h. absurd (omega (arith, newest-ge a l, ltb→lt b t e, ltb→le a t e', h))
  ]
  | inr e ↦ elim (Bool-cases (ltb a t)) [
    | inl e' ↦ rw (e, e') λ h. newest_keeps b t l h
    | inr e' ↦ rw (e, e') λ h. newest_keeps b a l h
  ]
]

module _ {F S D : Type 0} {w : Wire} (flag : FlagFile D) (kept : IsKeptFile flag)
    (model : Interface F w S) where
  -- From one time to the next at least an interval has passed.
  abbrev pub IsSpaced : ℕ → ℕ → List ℕ → Type 0
  IsSpaced interval t [] = Unit
  IsSpaced interval t (u ∷ us) = (t + interval * 60 ≤ u) × IsSpaced interval u us

  -- The times are those of a clock that is not set back, below 2 ^ 64.
  abbrev pub IsRunning : ℕ → List ℕ → Type 0
  IsRunning t [] = Unit
  IsRunning t (u ∷ us) = (t ≤ u) × (u < 2 ^ 64) × IsRunning u us

  elapsed-since : (t u : ℕ) → t ≤ u → u < 2 ^ 64 → elapsed u t ≡ u - t
  elapsed-since t u h b =
      ap (λ n. n % 2 ^ 64) (omega (arith, h))
      ∙ add-mod_right (u - t) (2 ^ 64)
      ∙ mod-eq_of_lt (omega (arith, b))

  IsRunning-before : (t u : ℕ) (times : List ℕ) → t ≤ u → IsRunning u times → IsRunning t times
  IsRunning-before t u [] h r = tt
  IsRunning-before t u (v ∷ times) h r = (omega (arith, h, r.0), r.1, r.2)

  turn-early :
      (interval now : ℕ) (k : Keeper S D)
      → ltb (elapsed now k.time_stamp) (interval * 60) ≡ true
      → persistent_turn flag model interval now k ≡ k
  unfolding persistent_turn
  turn-early interval now k e = rw e refl

  turn-saved :
      (interval now : ℕ) (k : Keeper S D)
      → ltb (elapsed now k.time_stamp) (interval * 60) ≡ false
      → ((model.persistent_library k.model_state).0 ==ℤ pos 0) ≡ true
      → (persistent_turn flag model interval now k).time_stamp ≡ now
  unfolding persistent_turn stamped
  turn-saved interval now k e c = rw (e, c) refl

  turn-failed :
      (interval now : ℕ) (k : Keeper S D)
      → ltb (elapsed now k.time_stamp) (interval * 60) ≡ false
      → ((model.persistent_library k.model_state).0 ==ℤ pos 0) ≡ false
      → (persistent_turn flag model interval now k).time_stamp ≡ k.time_stamp
  unfolding persistent_turn stamped
  turn-failed interval now k e c = rw (e, c) refl

  turn-model_state :
      (interval now : ℕ) (k : Keeper S D)
      → ltb (elapsed now k.time_stamp) (interval * 60) ≡ false
      → (persistent_turn flag model interval now k).model_state
        ≡ (model.persistent_library k.model_state).1
  unfolding persistent_turn stamped
  turn-model_state interval now k e =
      elim (Bool-cases ((model.persistent_library k.model_state).0 ==ℤ pos 0)) [
        | inl c ↦ rw (e, c) refl
        | inr c ↦ rw (e, c) refl
      ]

  respaced :
      (interval : ℕ) (times l : List ℕ) (t u : ℕ)
      → t ≡ u
      → (IsRunning t times → IsSpaced interval t l)
      → IsRunning u times
      → IsSpaced interval u l
  respaced interval times l t u e =
      subst
        (λ x.
          (IsRunning t times → IsSpaced interval t l) → IsRunning x times → IsSpaced interval x l)
        e (λ h. h)

  module _ (counts : CountsSaves model) where
    -- The times, of those at which a thread wakes up, at which the model is saved with success: the
    -- turns after which its state counts more of that than before.
    unfoldable pub saves : ℕ → List ℕ → Keeper S D → List ℕ
    saves interval [] k = []
    saves interval (now ∷ times) k =
        let k' = persistent_turn flag model interval now k in
        let rest = saves interval times k' in
        if counts.saved k'.model_state == counts.saved k.model_state then rest else now ∷ rest

    -- Where the clock is not set back and stays below 2^64, from the time stamp that the thread
    -- starts with to the first time at which it saves the model with success, and from each such
    -- time to the next, at least the configured interval passes.
    pub saves-IsSpaced :
        (interval : ℕ) (times : List ℕ) (k : Keeper S D)
        → IsRunning k.time_stamp times
        → IsSpaced interval k.time_stamp (saves interval times k)
    unfolding saves
    saves-IsSpaced interval [] k r = tt
    saves-IsSpaced interval (now ∷ times) k r =
        elim (Bool-cases (ltb (elapsed now k.time_stamp) (interval * 60))) [
          | inl e ↦
              rw (turn-early interval now k e, eq_same (counts.saved k.model_state) _ refl)
                (saves-IsSpaced interval times k (IsRunning-before k.time_stamp now times r.0 r.2))
          | inr e ↦ elim (Bool-cases ((model.persistent_library k.model_state).0 ==ℤ pos 0)) [
            | inl c ↦
                rw
                  (eq_suc _ _ (
                    ap counts.saved (turn-model_state interval now k e)
                    ∙ counts.succeeded k.model_state c))
                  (
                    omega (arith, ltb→le _ _ e, elapsed-since k.time_stamp now r.0 r.1),
                    respaced interval times _ _ _ (turn-saved interval now k e c)
                        (saves-IsSpaced interval times _) r.2,
                  )
            | inr c ↦
                rw
                  (eq_same _ _ (
                    ap counts.saved (turn-model_state interval now k e)
                    ∙ counts.failed k.model_state c))
                  (respaced interval times _ _ _ (turn-failed interval now k e c)
                    (saves-IsSpaced interval times _)
                    (IsRunning-before k.time_stamp now times r.0 r.2))
          ]
        ]

  -- The flag file, if it can be opened, has the stamp.
  abbrev pub IsStamped : Keeper S D → Type 0
  IsStamped k = stamp_or_zero (flag.read_stamp k.disk) ≡ k.time_stamp

  stamped-same :
      (stamp : ℕ) (r : ℤ × S) (k : Keeper S D)
      → (r.0 ==ℤ pos 0) ≡ true
      → stamped flag model stamp r k
        ≡ record { time_stamp = stamp; model_state = r.1; disk = flag.write_stamp stamp k.disk }
  unfolding stamped
  stamped-same stamp r k e = rw e refl

  train_turn-trained :
      (update_path : ℕ → Bytes) (folders : List ℕ) (k : Keeper S D)
      → leb (newest k.time_stamp folders) k.time_stamp ≡ false
      → train_turn flag model update_path (some folders) k
        ≡ stamped flag model
            (newest k.time_stamp folders)
            (model.update_train (update_path (newest k.time_stamp folders)) k.model_state)
            k
  unfolding train_turn
  train_turn-trained update_path folders k e = rw e refl

  -- A thread that is started again goes on as this one, and finds nothing new in the folders.
  abbrev pub IsSettled : (ℕ → Bytes) → List ℕ → Keeper S D → Type 0
  IsSettled update_path folders k =
      (start flag model k.model_state k.disk ≡ k)
      × (train_turn flag model update_path (some folders) k ≡ k)

  settled :
      (update_path : ℕ → Bytes) (folders : List ℕ) (stamp : ℕ) (s : S) (d : D)
      → kept.opens d ≡ true
      → newest stamp folders ≡ stamp
      → IsSettled update_path folders
          (record { time_stamp = stamp; model_state = s; disk = flag.write_stamp stamp d })
  unfolding start train_turn
  settled update_path folders stamp s d o e =
      (rw (kept.read_back stamp d o) refl, rw (e, leb_refl stamp) refl)

  -- If the flag file can be opened, and is read back as it was written, then after a turn that
  -- found a folder with a newer time stamp and trained from the newest with success, a thread that
  -- is started again has the same state, and its next turn with the same folders changes nothing.
  pub train_turn-once :
      (update_path : ℕ → Bytes) (folders : List ℕ) (k : Keeper S D)
      → kept.opens k.disk ≡ true
      → leb (newest k.time_stamp folders) k.time_stamp ≡ false
      → ((model.update_train (update_path (newest k.time_stamp folders)) k.model_state).0 ==ℤ pos 0)
        ≡ true
      → IsSettled update_path folders (train_turn flag model update_path (some folders) k)
  train_turn-once update_path folders k o e c =
      subst (IsSettled update_path folders)
        (sym (train_turn-trained update_path folders k e ∙ stamped-same _ _ k c))
        (settled update_path folders (newest k.time_stamp folders) _ k.disk o
          (newest_keeps _ k.time_stamp folders (omega arith)))
