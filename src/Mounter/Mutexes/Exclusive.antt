-- ===== src/Mounter/Mutexes/Exclusive.antt =====
-- Mounts and unmounts that run at once, each between `lock` and the function that it returns.
use csi_driver_smb_hardend.Base.{
  ◌≡◌, ◌≢◌, refl, sym, ◌∙◌, ap, subst, ℕ, ◌<◌, true, false, ◌⊎◌, inl, inr, Str, str_eq, str_eq_iff,
  str_eq_refl, Option, none, some, ◌==◌, ==_iff, ==_refl, if◌then◌else◌, arith, Bool-cases,
}
use csi_driver_smb_hardend.Mounter.Mutexes.{
  Mutexes, no_mutexes, loaded_or_stored, load_or_store, set_locked, lock_mutex, unlock_mutex,
}

-- What a goroutine does: nothing with a mapping path, wait for the mutex at a pointer, or run behind
-- it.
pub data Phase : Type 0 where
  idle : Phase
  waiting running : Str → ℕ → Phase

-- The mutexes, and the phase of each goroutine.
pub record System : Type 0 where
  pub mutexes : Mutexes
  pub phase : ℕ → Phase

-- Goroutine `i` enters a phase.
unfoldable pub enter : ℕ → Phase → (ℕ → Phase) → ℕ → Phase
enter i x phase j = if j == i then x else phase j

-- A goroutine looks up the mutex of a path, locks it, or unlocks it.
pub data Step (s : System) : System → Type 0 where
  look_up :
      (i : ℕ) (key : Str)
      → s.phase i ≡ idle
      → Step s (record {
        mutexes = (load_or_store key s.mutexes).1;
        phase = enter i (waiting key ((load_or_store key s.mutexes).0)) s.phase;
      })
  acquire :
      (i : ℕ) (key : Str) (p : ℕ) (m : Mutexes)
      → s.phase i ≡ waiting key p
      → lock_mutex p s.mutexes ≡ some m
      → Step s (record { mutexes = m; phase = enter i (running key p) s.phase })
  leave :
      (i : ℕ) (key : Str) (p : ℕ)
      → s.phase i ≡ running key p
      → Step s (record { mutexes = unlock_mutex p s.mutexes; phase = enter i idle s.phase })

pub data Reach (s : System) : System → Type 0 where
  here : Reach s s
  next : {t u : System} → Reach s t → Step t u → Reach s u

abbrev pub initial : System
initial = record { mutexes = no_mutexes; phase = λ i. idle }

-- Stored pointers are allocated and of one path each, what goroutines wait for and run behind is
-- stored, and a mutex is locked exactly while one goroutine runs behind it.
pub record Sound (s : System) : Type 0 where
  pub bounded : (key : Str) (p : ℕ) → s.mutexes.entries key ≡ some p → p < s.mutexes.allocated
  pub apart :
      (key other : Str) (p : ℕ)
      → s.mutexes.entries key ≡ some p
      → s.mutexes.entries other ≡ some p
      → key ≡ other
  pub waits :
      (i : ℕ) (key : Str) (p : ℕ) → s.phase i ≡ waiting key p → s.mutexes.entries key ≡ some p
  pub runs :
      (i : ℕ) (key : Str) (p : ℕ) → s.phase i ≡ running key p → s.mutexes.entries key ≡ some p
  pub locks : (i : ℕ) (key : Str) (p : ℕ) → s.phase i ≡ running key p → s.mutexes.is_locked p ≡ true
  pub alone :
      (i j : ℕ) (key other : Str) (p : ℕ)
      → s.phase i ≡ running key p
      → s.phase j ≡ running other p
      → i ≡ j
  pub held :
      (p : ℕ) → s.mutexes.is_locked p ≡ true → (i : ℕ) × (key : Str) × (s.phase i ≡ running key p)

initial-Sound : Sound initial
initial-Sound = record {
  bounded = λ key p h. grind arith;
  apart = λ key other p h k. grind arith;
  waits = λ i key p h. grind arith;
  runs = λ i key p h. grind arith;
  locks = λ i key p h. grind arith;
  alone = λ i j key other p h k. grind arith;
  held = λ p h. absurd cc;
}

enter-cases :
    (i j : ℕ) (x y : Phase) (phase : ℕ → Phase)
    → enter i x phase j ≡ y
    → ((j ≡ i) × (x ≡ y)) ⊎ (((j == i) ≡ false) × (phase j ≡ y))
unfolding enter
enter-cases i j x y phase h = elim (Bool-cases (j == i)) [
  | inl e ↦ inl (ground arith, grind arith)
  | inr e ↦ inr (e, grind arith)
]

-- What `mutexes.LoadOrStore` returns is stored, and what was stored stays.
record Loads (key : Str) (m : Mutexes) (r : ℕ × Mutexes) : Type 0 where
  stored : r.1.entries key ≡ some r.0
  stays : (k : Str) (p : ℕ) → m.entries k ≡ some p → r.1.entries k ≡ some p
  below : (k : Str) (p : ℕ) → r.1.entries k ≡ some p → p < r.1.allocated
  own : (k l : Str) (p : ℕ) → r.1.entries k ≡ some p → r.1.entries l ≡ some p → k ≡ l
  same : (p : ℕ) → r.1.is_locked p ≡ m.is_locked p

enter-other :
    (i j : ℕ) (x y z : Phase) (phase : ℕ → Phase)
    → phase i ≡ y
    → phase j ≡ z
    → y ≢ z
    → enter i x phase j ≡ z
unfolding enter
enter-other i j x y z phase h k apart = elim (Bool-cases (j == i)) [
  | inl e ↦ absurd (apart (sym h ∙ sym (ap phase ((==_iff j i).0 e)) ∙ k))
  | inr e ↦ rw e k
]

added-cases :
    (key k : Str) (n p : ℕ) (o : Option ℕ)
    → (if str_eq k key then some n else o) ≡ some p
    → ((k ≡ key) × (n ≡ p)) ⊎ (o ≡ some p)
added-cases key k n p o h = elim (Bool-cases (str_eq k key)) [
  | inl e ↦ inl ((str_eq_iff k key).0 e, grind arith)
  | inr e ↦ inr (grind arith)
]

loaded_or_stored-Loads :
    {s : System} (key : Str) (o : Option ℕ)
    → Sound s
    → s.mutexes.entries key ≡ o
    → Loads key s.mutexes (loaded_or_stored key s.mutexes o)
unfolding loaded_or_stored
loaded_or_stored-Loads {s} key (some q) h e = record {
  stored = e;
  stays = λ k p w. w;
  below = λ k p w. omega (arith, h.bounded k p w);
  own = h.apart;
  same = λ p. refl;
}
loaded_or_stored-Loads {s} key none h e = record {
  stored = rw str_eq_refl;
  stays = λ k p w. elim (Bool-cases (str_eq k key)) [
    | inl f ↦ let same = (str_eq_iff k key).0 f in grind arith
    | inr f ↦ rw f w
  ];
  below = λ k p w. elim (added-cases key k s.mutexes.allocated p (s.mutexes.entries k) w) [
    | inl a ↦ omega (arith, a.1)
    | inr a ↦ omega (arith, h.bounded k p a)
  ];
  own = λ k l p w u. elim (added-cases key k s.mutexes.allocated p (s.mutexes.entries k) w) [
    | inl a ↦ elim (added-cases key l s.mutexes.allocated p (s.mutexes.entries l) u) [
      | inl b ↦ a.0 ∙ sym b.0
      | inr b ↦ absurd (omega (arith, a.1, h.bounded l p b))
    ]
    | inr a ↦ elim (added-cases key l s.mutexes.allocated p (s.mutexes.entries l) u) [
      | inl b ↦ absurd (omega (arith, b.1, h.bounded k p a))
      | inr b ↦ h.apart k l p a b
    ]
  ];
  same = λ p. refl;
}

look_up-Sound :
    {s : System} (i : ℕ) (key : Str)
    → Sound s
    → s.phase i ≡ idle
    → Sound (record {
      mutexes = (load_or_store key s.mutexes).1;
      phase = enter i (waiting key ((load_or_store key s.mutexes).0)) s.phase;
    })
unfolding load_or_store
look_up-Sound {s} i key h e =
    let r = load_or_store key s.mutexes in
    let l : Loads key s.mutexes r = loaded_or_stored-Loads key (s.mutexes.entries key) h refl in
    let before : (j : ℕ) (k : Str) (p : ℕ)
        → enter i (waiting key r.0) s.phase j ≡ running k p
        → s.phase j ≡ running k p =
      λ j k p w. elim (enter-cases i j (waiting key r.0) (running k p) s.phase w) [
        | inl a ↦ absurd (cc (a.1))
        | inr a ↦ a.1
      ] in
    record {
      bounded = l.below;
      apart = l.own;
      waits = λ j k p w. elim (enter-cases i j (waiting key r.0) (waiting k p) s.phase w) [
        | inl a ↦ grind (arith, a.1, l.stored)
        | inr a ↦ l.stays k p (h.waits j k p a.1)
      ];
      runs = λ j k p w. l.stays k p (h.runs j k p (before j k p w));
      locks = λ j k p w. l.same p ∙ h.locks j k p (before j k p w);
      alone = λ j j2 k o p w u. h.alone j j2 k o p (before j k p w) (before j2 o p u);
      held = λ p w.
          let (j, k, runs) = h.held p (sym (l.same p) ∙ w) in
          (j, k, enter-other i j (waiting key r.0) idle (running k p) s.phase e runs (λ q. cc q));
    }

lock_mutex-some :
    (p : ℕ) (m n : Mutexes)
    → lock_mutex p m ≡ some n
    → (m.is_locked p ≡ false) × (set_locked p true m ≡ n)
unfolding lock_mutex
lock_mutex-some p m n h = elim (Bool-cases (m.is_locked p)) [
  | inl e ↦ absurd (grind arith)
  | inr e ↦ (e, grind arith)
]

acquire-Sound :
    {s : System} (i : ℕ) (key : Str) (p : ℕ)
    → Sound s
    → s.phase i ≡ waiting key p
    → s.mutexes.is_locked p ≡ false
    → Sound
        (record { mutexes = set_locked p true s.mutexes; phase = enter i (running key p) s.phase })
acquire-Sound {s} i key p h e free = record {
  bounded = h.bounded;
  apart = h.apart;
  waits = λ j k q w. elim (enter-cases i j (running key p) (waiting k q) s.phase w) [
    | inl a ↦ absurd (cc a.1)
    | inr a ↦ h.waits j k q a.1
  ];
  runs = λ j k q w. elim (enter-cases i j (running key p) (running k q) s.phase w) [
    | inl a ↦ grind (arith, a.1, h.waits i key p e)
    | inr a ↦ h.runs j k q a.1
  ];
  locks = λ j k q w. elim (enter-cases i j (running key p) (running k q) s.phase w) [
    | inl a ↦ grind (arith, a.1, ==_refl p)
    | inr a ↦ grind (arith, h.locks j k q a.1)
  ];
  alone = λ j l k o q w u. elim (enter-cases i j (running key p) (running k q) s.phase w) [
    | inl a ↦ elim (enter-cases i l (running key p) (running o q) s.phase u) [
      | inl b ↦ a.0 ∙ sym b.0
      | inr b ↦ absurd (grind (arith, a.1, h.locks l o q b.1))
    ]
    | inr a ↦ elim (enter-cases i l (running key p) (running o q) s.phase u) [
      | inl b ↦ absurd (grind (arith, b.1, h.locks j k q a.1))
      | inr b ↦ h.alone j l k o q a.1 b.1
    ]
  ];
  held = λ q w. elim (Bool-cases (q == p)) [
    | inl f ↦ (i, key, unfold enter in grind (arith, ==_iff q p, ==_refl i))
    | inr f ↦
        let (j, k, r) = h.held q (grind (arith, f, w)) in
        (
          j,
          k,
          enter-other i j (running key p) (waiting key p) (running k q) s.phase e r (λ c. cc c),
        )
  ];
}

leave-Sound :
    {s : System} (i : ℕ) (key : Str) (p : ℕ)
    → Sound s
    → s.phase i ≡ running key p
    → Sound (record { mutexes = unlock_mutex p s.mutexes; phase = enter i idle s.phase })
leave-Sound {s} i key p h e =
    let before : (j : ℕ) (k : Str) (q : ℕ)
        → enter i idle s.phase j ≡ running k q
        → ((j == i) ≡ false) × (s.phase j ≡ running k q) =
      λ j k q w. elim (enter-cases i j idle (running k q) s.phase w) [
        | inl a ↦ absurd (cc a.1)
        | inr a ↦ a
      ] in
    record {
      bounded = h.bounded;
      apart = h.apart;
      waits = λ j k q w. elim (enter-cases i j idle (waiting k q) s.phase w) [
        | inl a ↦ absurd (cc a.1)
        | inr a ↦ h.waits j k q a.1
      ];
      runs = λ j k q w. h.runs j k q (before j k q w).1;
      locks = λ j k q w.
          let (other, r) = before j k q w in
          elim (Bool-cases (q == p)) [
            | inl f ↦ absurd (grind (arith, ==_iff q p, ==_iff j i, h.alone j i k key p))
            | inr f ↦ rw f (h.locks j k q r)
          ];
      alone = λ j l k o q w u. h.alone j l k o q (before j k q w).1 (before l o q u).1;
      held = λ q w. elim (Bool-cases (q == p)) [
        | inl f ↦ absurd (grind (arith, f, w))
        | inr f ↦
            let (j, k, r) = h.held q (grind (arith, f, w)) in
            (
              j,
              k,
              enter-other i j idle (running key p) (running k q) s.phase e r
                  (λ c. grind (arith, c, f)),
            )
      ];
    }

pub Step-Sound : {s t : System} → Step s t → Sound s → Sound t
Step-Sound (look_up i key e) h = look_up-Sound i key h e
Step-Sound {s} (acquire i key p m e got) h =
    let (free, same) = lock_mutex-some p s.mutexes m got in
    subst (λ n. Sound (record { mutexes = n; phase = enter i (running key p) s.phase })) same
      (acquire-Sound i key p h e free)
Step-Sound (leave i key p e) h = leave-Sound i key p h e

pub Reach-Sound : {s : System} → Reach initial s → Sound s
Reach-Sound here = initial-Sound
Reach-Sound (next r st) = Step-Sound st (Reach-Sound r)

-- In every interleaving of calls of lock and of the functions it returns, two goroutines that run
-- behind a mutex at once are one goroutine, or run on different mapping paths and behind different
-- mutexes.
pub Reach-exclusive :
    {s : System}
    → Reach initial s
    → (i j : ℕ) (key other : Str) (p q : ℕ) → s.phase i ≡ running key p
    → s.phase j ≡ running other q
    → (i ≡ j) ⊎ ((key ≢ other) × (p ≢ q))
Reach-exclusive {s} r i j key other p q e f =
    let h = Reach-Sound r in
    elim (Bool-cases (p == q)) [
      | inl same ↦
          inl (h.alone i j key other p e (f ∙ ap (running other) (sym ((==_iff p q).0 same))))
      | inr apart ↦ inr (
        λ same. grind (arith, same, apart, ==_iff p q, h.runs i key p e, h.runs j other q f),
        λ same. grind (arith, same, apart, ==_iff p q),
      )
    ]

-- In every such interleaving, a goroutine that waits for the mutex of a mapping path locks it, or
-- another goroutine runs on the same path.
pub Reach-lock :
    {s : System}
    → Reach initial s
    → (i : ℕ) (key : Str) (p : ℕ) → s.phase i ≡ waiting key p
    → ((m : Mutexes) × (lock_mutex p s.mutexes ≡ some m))
      ⊎ ((j : ℕ) × (s.phase j ≡ running key p) × (i ≢ j))
unfolding lock_mutex
Reach-lock {s} r i key p e =
    let h = Reach-Sound r in
    elim (Bool-cases (s.mutexes.is_locked p)) [
      | inl f ↦
          let (j, k, runs) = h.held p f in
          let same : k ≡ key = h.apart k key p (h.runs j k p runs) (h.waits i key p e) in
          inr (j, runs ∙ ap (λ l. running l p) same, λ c. grind (arith, c, e, runs))
      | inr f ↦ inl (set_locked p true s.mutexes, rw f)
    ]
