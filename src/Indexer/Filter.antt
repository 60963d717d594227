-- ===== src/Indexer/Filter.antt =====
-- `matches_filter` against what a filter asks for.
use kora.Base.{
  ℕ, zero, suc, ◌≡◌, refl, sym, ap, ◌∙◌, true, List, [], ◌∷◌, Option, none, some, arith, get_elem?,
}
use kora.Indexer.{IndexedLog, LogFilter, contains, matches_address, matches_topics, matches_filter}

-- What a filter asks for at each of its topic positions that is set: a topic of the log at that
-- position, among those allowed.
abbrev pub TopicsFit : List (Option (List ℕ)) → List ℕ → Type 0
TopicsFit fs ts =
    (i : ℕ) (allowed : List ℕ)
    → get_elem? fs i ≡ some (some allowed)
    → (t : ℕ) × (get_elem? ts i ≡ some t) × (contains t allowed ≡ true)

pub record Satisfies (log : IndexedLog) (filter : LogFilter) : Type 0 where
  pub of_address :
      (addresses : List ℕ) → filter.address ≡ some addresses → contains log.address addresses ≡ true
  pub of_topics : TopicsFit filter.topics log.topics

TopicsFit-tail :
    (f : Option (List ℕ)) (fs : List (Option (List ℕ))) (t : ℕ) (ts : List ℕ)
    → TopicsFit (f ∷ fs) (t ∷ ts)
    → TopicsFit fs ts
TopicsFit-tail f fs t ts h i allowed e = h (suc i) allowed e

TopicsFit-nil :
    (f : Option (List ℕ)) (fs : List (Option (List ℕ))) → TopicsFit (f ∷ fs) [] → TopicsFit fs []
TopicsFit-nil f fs h i allowed e = h (suc i) allowed e

matches_topics-TopicsFit :
    (fs : List (Option (List ℕ))) (ts : List ℕ) → matches_topics fs ts ≡ true → TopicsFit fs ts
matches_topics-TopicsFit [] ts m i allowed e = cc
matches_topics-TopicsFit (none ∷ fs) [] m zero allowed e = cc
matches_topics-TopicsFit (none ∷ fs) [] m (suc i) allowed e =
    matches_topics-TopicsFit fs [] m i allowed e
matches_topics-TopicsFit (none ∷ fs) (t ∷ ts) m zero allowed e = cc
matches_topics-TopicsFit (none ∷ fs) (t ∷ ts) m (suc i) allowed e =
    matches_topics-TopicsFit fs ts m i allowed e
matches_topics-TopicsFit (some a ∷ fs) [] m i allowed e = cc
matches_topics-TopicsFit (some a ∷ fs) (t ∷ ts) m zero allowed e =
    let same : a ≡ allowed = ground (arith, e) in
    (t, refl, ap (contains t) (sym same) ∙ ground (arith, m))
matches_topics-TopicsFit (some a ∷ fs) (t ∷ ts) m (suc i) allowed e =
    matches_topics-TopicsFit fs ts (ground (arith, m)) i allowed e

TopicsFit-matches_topics :
    (fs : List (Option (List ℕ))) (ts : List ℕ) → TopicsFit fs ts → matches_topics fs ts ≡ true
TopicsFit-matches_topics [] ts h = refl
TopicsFit-matches_topics (none ∷ fs) [] h = TopicsFit-matches_topics fs [] (TopicsFit-nil none fs h)
TopicsFit-matches_topics (none ∷ fs) (t ∷ ts) h =
    TopicsFit-matches_topics fs ts (TopicsFit-tail none fs t ts h)
TopicsFit-matches_topics (some a ∷ fs) [] h = let (t, e, _) = h zero a refl in cc
TopicsFit-matches_topics (some a ∷ fs) (t ∷ ts) h =
    let (x, e, c) = h zero a refl in
    let same : t ≡ x = ground (arith, e) in
    let rest = TopicsFit-matches_topics fs ts (TopicsFit-tail (some a) fs t ts h) in
    let here : contains t a ≡ true = ap (λ y. contains y a) same ∙ c in rw (here, rest) refl

pub matches_filter-Satisfies :
    (log : IndexedLog) (filter : LogFilter)
    → matches_filter log filter ≡ true
    → Satisfies log filter
unfolding matches_filter
matches_filter-Satisfies log filter m = record {
  of_address = λ addresses e. ground (arith, m, e, ap (λ a. matches_address a log.address) e);
  of_topics = matches_topics-TopicsFit filter.topics log.topics (ground (arith, m));
}

of_address-matches :
    (o : Option (List ℕ)) (a : ℕ)
    → ((addresses : List ℕ) → o ≡ some addresses → contains a addresses ≡ true)
    → matches_address o a ≡ true
of_address-matches none a h = refl
of_address-matches (some addresses) a h = h addresses refl

pub Satisfies-matches_filter :
    (log : IndexedLog) (filter : LogFilter)
    → Satisfies log filter
    → matches_filter log filter ≡ true
unfolding matches_filter
Satisfies-matches_filter log filter s =
    rw
      (
        of_address-matches filter.address log.address s.of_address,
        TopicsFit-matches_topics filter.topics log.topics s.of_topics,
      )
      refl
