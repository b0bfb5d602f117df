-- ===== src/Session/Scan.antt =====
-- What the loop of `matrixRegisterSession` finds in a table.
use robin_mesh_v.Prelude.{
  ℕ, zero, suc, ◌+◌, ◌≤◌, ◌<◌, ◌≡◌, refl, ◌⊎◌, inl, inr, [], ◌∷◌, arith, true, false, if◌then◌else◌,
  ◌==◌, ◌&&◌, length, Bool-cases,
}
use robin_mesh_v.Session.{scan, compare_time, Time, Table, SessionEntry, entry, is_null}

compare_time_refl : (a : Time) → compare_time a a ≡ true
unfolding compare_time
compare_time_refl a = ground arith

compare_time_total : (a b : Time) → compare_time a b ≡ false → compare_time b a ≡ true
unfolding compare_time
compare_time_total a b h = ground arith

compare_time_trans :
    (a b c : Time) → compare_time a b ≡ true → compare_time b c ≡ true → compare_time a c ≡ true
unfolding compare_time
compare_time_trans a b c h k = ground arith

-- Every entry holds a session.
abbrev pub IsFull : Table → Type 0
IsFull t = (m : ℕ) → m < length t → is_null (entry t m).cipher ≡ false

-- The scan of a suffix found its first empty entry, or came to its end.
pub record Stops (es : Table) (i : ℕ) (at : ℕ) : Type 0 where
  pub k : ℕ
  pub at_k : at ≡ i + k
  pub within : k ≤ length es
  pub empty : k < length es → is_null (entry es k).cipher ≡ true
  pub before : (m : ℕ) → m < k → is_null (entry es m).cipher ≡ false

pub scan-Stops : (es : Table) (i : ℕ) (t : Time) (j : ℕ) → Stops es i (scan es i t j).at
unfolding scan
scan-Stops [] i t j = record {
  k = 0;
  at_k = omega arith;
  within = omega arith;
  empty = λ h. absurd (omega arith);
  before = λ m h. absurd (omega arith);
}
scan-Stops (e ∷ es) i t j = elim (Bool-cases (is_null e.cipher)) [
  | inl null ↦ record {
    k = 0;
    at_k = rw null (omega arith);
    within = omega arith;
    empty = λ h. null;
    before = λ m h. absurd (omega arith);
  }
  | inr full ↦
      let found = compare_time e.access_time t && e.in_use == 0 in
      let ih =
        scan-Stops es (i + 1) (if found then e.access_time else t) (if found then i else j) in
      record {
        k = suc ih.k;
        at_k = rw full (omega (arith, ih.at_k));
        within = omega (arith, ih.within);
        empty = λ h. ih.empty (omega arith);
        before = elim [ zero ↦ λ h. full | suc m ↦ λ h. ih.before m (omega arith) ];
      }
]

-- The scan of a full suffix chose entry `i + k`, the oldest of those not in use.
pub record Chose (es : Table) (i : ℕ) (t : Time) (oldest : ℕ) : Type 0 where
  pub k : ℕ
  pub oldest_k : oldest ≡ i + k
  pub within : k < length es
  pub unused : (entry es k).in_use ≡ 0
  pub old : compare_time (entry es k).access_time t ≡ true
  pub least :
      (m : ℕ)
      → m < length es
      → (entry es m).in_use ≡ 0
      → compare_time (entry es k).access_time (entry es m).access_time ≡ true

-- The scan of a full suffix kept what it was given, since no unused entry is as old as `t`.
pub record Kept (es : Table) (t : Time) (j oldest : ℕ) : Type 0 where
  pub same : oldest ≡ j
  pub younger :
      (m : ℕ)
      → m < length es
      → (entry es m).in_use ≡ 0
      → compare_time (entry es m).access_time t ≡ false

abbrev pub Outcome : Table → ℕ → Time → ℕ → ℕ → Type 0
Outcome es i t j oldest = Chose es i t oldest ⊎ Kept es t j oldest

found_step :
    (e : SessionEntry) (es : Table) (i : ℕ) (t : Time) (j oldest : ℕ)
    → compare_time e.access_time t ≡ true
    → e.in_use ≡ 0
    → Outcome es (i + 1) e.access_time i oldest
    → Outcome (e ∷ es) i t j oldest
found_step e es i t j oldest older unused (inl c) = inl (record {
  k = suc c.k;
  oldest_k = omega (arith, c.oldest_k);
  within = omega (arith, c.within);
  unused = c.unused;
  old = compare_time_trans _ _ _ c.old older;
  least = elim [ zero ↦ λ h u. c.old | suc m ↦ λ h u. c.least m (omega arith) u ];
})
found_step e es i t j oldest older unused (inr q) = inl (record {
  k = 0;
  oldest_k = omega (arith, q.same);
  within = omega arith;
  unused = unused;
  old = older;
  least = elim [
    | zero ↦ λ h u. compare_time_refl e.access_time
    | suc m ↦ λ h u. compare_time_total _ _ (q.younger m (omega arith) u)
  ];
})

skip_step :
    (e : SessionEntry) (es : Table) (i : ℕ) (t : Time) (j oldest : ℕ)
    → (e.in_use ≡ 0 → compare_time e.access_time t ≡ false)
    → Outcome es (i + 1) t j oldest
    → Outcome (e ∷ es) i t j oldest
skip_step e es i t j oldest young (inl c) = inl (record {
  k = suc c.k;
  oldest_k = omega (arith, c.oldest_k);
  within = omega (arith, c.within);
  unused = c.unused;
  old = c.old;
  least = elim [
    | zero ↦ λ h u. compare_time_trans _ _ _ c.old (compare_time_total _ _ (young u))
    | suc m ↦ λ h u. c.least m (omega arith) u
  ];
})
skip_step e es i t j oldest young (inr q) = inr (record {
  same = q.same;
  younger = elim [ zero ↦ λ h u. young u | suc m ↦ λ h u. q.younger m (omega arith) u ];
})

pub scan_outcome :
    (es : Table) (i : ℕ) (t : Time) (j : ℕ) → IsFull es → Outcome es i t j (scan es i t j).oldest
unfolding scan
scan_outcome [] i t j full = inr (record { same = refl; younger = λ m h u. absurd (omega arith) })
scan_outcome (e ∷ es) i t j full =
    elim (Bool-cases (compare_time e.access_time t && e.in_use == 0)) [
      | inl found ↦
          rw (full 0 (omega arith), found)
            (found_step e es i t j _ (ground arith) (ground arith)
              (scan_outcome es (i + 1) e.access_time i (λ m h. full (suc m) (omega arith))))
      | inr other ↦
          rw (full 0 (omega arith), other)
            (skip_step e es i t j _ (λ u. ground arith)
              (scan_outcome es (i + 1) t j (λ m h. full (suc m) (omega arith))))
    ]
