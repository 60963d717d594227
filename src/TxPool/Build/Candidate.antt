-- ===== src/TxPool/Build/Candidate.antt =====
-- One sender in the selection: the search for its candidate, and what it offers.
use kora.Base.{
  ℕ, zero, suc, ◌+◌, ◌≤◌, ◌<◌, ◌≡◌, refl, subst, ap, ◌∙◌, inl, inr, Bool, false, not, List, [], ◌∷◌,
  Option, none, some, arith, ltb, if◌then◌else◌, length, drop, retain, Bool-cases, u64_max,
  saturating_add, saturating_add_exact,
}
use kora.TxPool.Transaction.{OrderedTransaction}
use kora.TxPool.Queue.Nonces.{Consecutive}
use kora.TxPool.Build.{BuildSenderState, consume, is_excluded, scan, next_candidate}

abbrev pub first : List OrderedTransaction → Option OrderedTransaction
first [] = none
first (t ∷ ts) = some t

abbrev pub rest : List OrderedTransaction → List OrderedTransaction
rest [] = []
rest (t ∷ ts) = ts

drop-suc :
    (i : ℕ) (xs : List OrderedTransaction) (x : OrderedTransaction) (ys : List OrderedTransaction)
    → drop i xs ≡ x ∷ ys
    → drop (suc i) xs ≡ ys
drop-suc zero [] x ys e = cc
drop-suc zero (y ∷ xs) x ys e = ap rest e
drop-suc (suc i) [] x ys e = cc
drop-suc (suc i) (y ∷ xs) x ys e = drop-suc i xs x ys e

-- The transactions from `index` on run from the expected nonce without a gap.
pub record IsReady (state : BuildSenderState) : Type 0 where
  pub run : Consecutive state.expected_nonce (drop state.index state.txs)
  pub in_range : state.expected_nonce + length (drop state.index state.txs) ≤ u64_max

module _ (id_of : List ℕ → ℕ) (excluded : ℕ → Bool) where
  abbrev pub wanted : OrderedTransaction → Bool
  wanted t = not (is_excluded id_of excluded t)

  -- What a sender still offers: its transactions from `index` on that are not excluded.
  abbrev pub offered : BuildSenderState → List OrderedTransaction
  offered state = retain wanted (drop state.index state.txs)

  -- What the search for a candidate leaves and finds.
  pub record Finds (state : BuildSenderState) (r : BuildSenderState × Option OrderedTransaction)
      : Type 0 where
    pub ready : IsReady r.0
    pub same : offered r.0 ≡ offered state
    pub out : r.1 ≡ first (offered state)
    pub at_front :
        (t : OrderedTransaction)
        → r.1 ≡ some t
        → (drop r.0.index r.0.txs ≡ t ∷ rest (drop r.0.index r.0.txs))
          × (is_excluded id_of excluded t ≡ false)

  scan-run :
      (x : OrderedTransaction) (xs : List OrderedTransaction) (i e : ℕ)
      → x.nonce ≡ e
      → e < u64_max
      → scan id_of excluded (x ∷ xs) i e ≡ (
          if is_excluded id_of excluded x
          then scan id_of excluded xs (suc i) (suc e)
          else ((i, e), some x))
  unfolding scan
  scan-run x xs i e k h =
      let next : saturating_add x.nonce 1 ≡ suc e =
        saturating_add_exact x.nonce 1 (omega arith) ∙ omega arith in
      let level : ltb x.nonce e ≡ false = ground (arith, k) in
      let level_too : ltb e x.nonce ≡ false = ground (arith, k) in
      rw (scan, level, level_too, next) refl

  scan-Finds :
      (xs txs : List OrderedTransaction) (i e : ℕ)
      → drop i txs ≡ xs
      → Consecutive e xs
      → e + length xs ≤ u64_max
      → let ((i', e'), out) = scan id_of excluded xs i e in
        Finds
          (record { txs = txs; index = i; expected_nonce = e })
          (record { txs = txs; index = i'; expected_nonce = e' }, out)
  unfolding scan
  scan-Finds [] txs i e d c h = record {
    ready = record { run = rw d c; in_range = rw d h };
    same = refl;
    out = rw d refl;
    at_front = λ t e. cc;
  }
  scan-Finds (x ∷ xs) txs i e d c h =
      rw (scan-run x xs i e c.0 (omega arith)) (elim (Bool-cases (is_excluded id_of excluded x)) [
        | inl skip ↦
            let ih = scan-Finds xs txs (suc i) (suc e) (drop-suc i txs x xs d) c.1 (omega arith) in
            let shorter : retain wanted (drop (suc i) txs) ≡ retain wanted (drop i txs) =
              rw (drop-suc i txs x xs d, d, skip) refl in
            rw skip (record {
              ready = ih.ready;
              same = ih.same ∙ shorter;
              out = ih.out ∙ ap first shorter;
              at_front = ih.at_front;
            })
        | inr keep ↦ rw keep (record {
          ready = record { run = rw d c; in_range = rw d h };
          same = refl;
          out = rw (d, keep) refl;
          at_front =
              λ t f. let same : x ≡ t = ground (arith, f) in (rw (d, same) refl, rw (← same) keep);
        })
      ])

  pub next_candidate-Finds :
      (state : BuildSenderState) → IsReady state → Finds state (next_candidate id_of excluded state)
  unfolding next_candidate
  next_candidate-Finds state k =
      scan-Finds (drop state.index state.txs) state.txs state.index state.expected_nonce refl k.run
        k.in_range

  pub consume-IsReady :
      (state : BuildSenderState) (t : OrderedTransaction) (ts : List OrderedTransaction)
      → IsReady state
      → drop state.index state.txs ≡ t ∷ ts
      → is_excluded id_of excluded t ≡ false
      → IsReady (consume state) × (offered state ≡ t ∷ offered (consume state))
  unfolding consume
  consume-IsReady state t ts k d keep =
      let shorter = drop-suc state.index state.txs t ts d in
      let run : Consecutive state.expected_nonce (t ∷ ts) =
        subst (Consecutive state.expected_nonce) d k.run in
      let size : length (drop state.index state.txs) ≡ suc (length ts) = ap length d in
      let bound = k.in_range in
      let next : saturating_add state.expected_nonce 1 ≡ suc state.expected_nonce =
        saturating_add_exact state.expected_nonce 1 (omega arith) ∙ omega arith in
      (
        record { run = rw (next, shorter) run.1; in_range = rw (next, shorter) (omega arith) },
        rw (d, shorter, keep) refl,
      )
