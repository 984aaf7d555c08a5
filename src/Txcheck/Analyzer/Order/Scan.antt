-- ===== src/Txcheck/Analyzer/Order/Scan.antt =====
-- What the scan of the queue finds: the first, the second and the last statement of a transaction.
use dbfuzz_multidb.Common.{
  ℕ, zero, suc, ◌≤◌, ◌<◌, ◌≡◌, refl, sym, ap, ◌∙◌, ◌⊎◌, inl, inr, true, false, ◌==◌, List, [], ◌∷◌,
  ◌++◌, none, some, arith, Bool-cases, get_elem?, length, length-append,
}
use mathlib.Core.List.{append_assoc}
use dbfuzz_multidb.Txcheck.Analyzer.Order.{StartScan, scan_stmt, scan_init, scan_queue}

-- Transaction `t` has its statement at index `m` of the queue.
abbrev pub IsAt : List ℕ → ℕ → ℕ → Type 0
IsAt queue t m = get_elem? queue m ≡ some t

-- After the statements below `i`: none of transaction `t`, one, or more.
pub data ScanOf (queue : List ℕ) (i : ℕ) (s : StartScan) (t : ℕ) : Type 0 where
  unseen :
      s.used t ≡ false
      → s.strict_begin t ≡ none
      → s.begin t ≡ none
      → s.last t ≡ none
      → ((m : ℕ) → m < i → IsAt queue t m → ⊥)
      → ScanOf queue i s t
  once :
      (k : ℕ)
      → s.used t ≡ true
      → s.strict_begin t ≡ some k
      → s.begin t ≡ none
      → s.last t ≡ none
      → k < i
      → IsAt queue t k
      → ((m : ℕ) → m < i → IsAt queue t m → m ≡ k)
      → ScanOf queue i s t
  many :
      (k b l : ℕ)
      → s.used t ≡ true
      → s.strict_begin t ≡ some k
      → s.begin t ≡ some b
      → s.last t ≡ some l
      → (k < b) × (b ≤ l) × (l < i)
      → IsAt queue t k
      → IsAt queue t b
      → IsAt queue t l
      → ((m : ℕ) → m < i → IsAt queue t m → (m ≡ k) ⊎ ((b ≤ m) × (m ≤ l)))
      → ScanOf queue i s t

module _ (queue : List ℕ) (i tid : ℕ) (now : IsAt queue tid i) (s : StartScan) (t : ℕ) where
  older : (m : ℕ) → (tid == t) ≡ false → m < suc i → IsAt queue t m → m < i
  older m ne lt at = elim (Bool-cases (m == i)) [
    | inl e ↦ let e' : m ≡ i = ground arith in absurd (differ (rw e' at at))
    | inr e ↦ ground arith
  ]
    where
      differ : IsAt queue t i → ⊥
      differ at' = ground (arith, now)

  scan_other : (tid == t) ≡ false → ScanOf queue i s t → ScanOf queue (suc i) (scan_stmt tid i s) t
  unfolding scan_stmt
  scan_other ne (unseen a b c d none_before) =
      unseen (ground arith) (ground arith) (ground arith) (ground arith)
        (λ m lt at. none_before m (older m ne lt at) at)
  scan_other ne (once k a b c d lt at only) =
      once k (ground arith) (ground arith) (ground arith) (ground arith) (omega arith) at
        (λ m lt' at'. only m (older m ne lt' at') at')
  scan_other ne (many k b l u p q r order at_k at_b at_l only) =
      many k b l (ground arith) (ground arith) (ground arith) (ground arith)
        (omega arith, omega arith, omega arith) at_k at_b at_l
        (λ m lt' at'. only m (older m ne lt' at') at')

  before_or_now : (m : ℕ) → m < suc i → (m < i) ⊎ (m ≡ i)
  before_or_now m lt = elim (Bool-cases (m == i)) [
    | inl e ↦ inr (ground arith)
    | inr e ↦ inl (ground arith)
  ]

  scan_same : tid ≡ t → ScanOf queue i s t → ScanOf queue (suc i) (scan_stmt tid i s) t
  unfolding scan_stmt
  scan_same e (unseen a b c d none_before) =
      once i (ground arith) (ground arith) (ground arith) (ground arith) (omega arith)
        (rw (← e) now)
        (λ m lt at. elim (before_or_now m lt) [
          | inl early ↦ absurd (none_before m early at)
          | inr here ↦ here
        ])
  scan_same e (once k a b c d lt at only) =
      many k i i (ground arith) (ground arith) (ground arith) (ground arith)
        (lt, omega arith, omega arith) at (rw (← e) now) (rw (← e) now)
        (λ m lt' at'. elim (before_or_now m lt') [
          | inl early ↦ inl (only m early at')
          | inr here ↦ inr (omega arith, omega arith)
        ])
  scan_same e (many k b l u p q r order at_k at_b at_l only) =
      many k b i (ground arith) (ground arith) (ground arith) (ground arith)
        (omega arith, omega arith, omega arith) at_k at_b (rw (← e) now)
        (λ m lt' at'. elim (before_or_now m lt') [
          | inl early ↦ elim (only m early at') [
            | inl first ↦ inl first
            | inr between ↦ inr (between.0, omega (arith, between.1))
          ]
          | inr here ↦ inr (omega arith, omega arith)
        ])

  scan_step : ScanOf queue i s t → ScanOf queue (suc i) (scan_stmt tid i s) t
  scan_step o = elim (Bool-cases (tid == t)) [
    | inl same ↦ scan_same (ground arith) o
    | inr other ↦ scan_other other o
  ]

get_elem?-append :
    (before : List ℕ) (a : ℕ) (after : List ℕ)
    → get_elem? (before ++ a ∷ after) (length before) ≡ some a
get_elem?-append [] a after = refl
get_elem?-append (b ∷ before) a after = get_elem?-append before a after

scan_from :
    (queue : List ℕ) (t i : ℕ) (before rest : List ℕ) (s : StartScan)
    → queue ≡ before ++ rest
    → i ≡ length before
    → ScanOf queue i s t
    → ScanOf queue (length queue) (scan_queue i rest s) t
unfolding scan_queue
scan_from queue t i before [] s split at_end o =
    let whole : i ≡ length queue =
      at_end ∙ sym (ap length split ∙ omega (arith, length-append before [])) in
    rw (← whole) o
scan_from queue t i before (tid ∷ rest) s split at_end o =
    let now : IsAt queue tid i = rw (split, at_end) (get_elem?-append before tid rest) in
    scan_from queue t (suc i) (before ++ tid ∷ []) rest (scan_stmt tid i s)
      (split ∙ sym (append_assoc before (tid ∷ []) rest))
      (omega (arith, length-append before (tid ∷ []))) (scan_step queue i tid now s t o)

pub scan_queue-ScanOf :
    (queue : List ℕ) (t : ℕ) → ScanOf queue (length queue) (scan_queue 0 queue scan_init) t
scan_queue-ScanOf queue t =
    scan_from queue t 0 [] queue scan_init refl refl
      (unseen refl refl refl refl (λ m lt at. absurd (omega arith)))

-- A place of a transaction in the queue lies below the end.
pub IsAt-lt : (queue : List ℕ) (t m : ℕ) → IsAt queue t m → m < length queue
IsAt-lt [] t m at = cc
IsAt-lt (q ∷ queue) t zero at = omega arith
IsAt-lt (q ∷ queue) t (suc m) at = omega (arith, IsAt-lt queue t m at)
