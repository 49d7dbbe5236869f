-- ===== src/Gateway/Selected.antt =====
-- The route that `_select` takes.
use blackcell.Prelude.{
  leb→le, ◌≡◌, refl, ℕ, ◌≤◌, String, Bool, true, false, Option, none, some, List, [], ◌∷◌, ◌&&◌,
  ◌||◌, not, leb, str_eq, any, All, All-map, arith, ok, inl, inr, Bool-cases,
}
use blackcell.Prelude.{eq_iff, eq_refl}
use blackcell.Gateway.Call.{find_profile}
use blackcell.Gateway.{xor}
use blackcell.Gateway.{
  consider, are_unique, ModelRequest, GatewayProfile, ModelAdapter, ModelGateway, Route,
  find_adapter, admits, candidates, comes_first, insert, sort, first_of, select, level,
  is_local_only, same_capability,
}

-- what eight tests in a row say, the fourth left out
passed :
    (a b c d e f g h : Bool)
    → (a && b && c && d && not e && not f && g && h) ≡ true
    → (c ≡ true) × (e ≡ false) × (f ≡ false) × (g ≡ true) × (h ≡ true)
passed a b c d e f g h t = ground arith

-- a route of the gateway that the request's policy admits
abbrev IsCandidate : ModelRequest → List ModelAdapter → List GatewayProfile → Route → Type 0
IsCandidate request adapters profiles (p, a) =
    (find_adapter p.adapter_id adapters ≡ some a)
    × (admits request p a ≡ true)
    × (find_profile p.profile_id profiles ≡ some p)

find_profile-any :
    (k j : String) (profiles : List GatewayProfile) (q : GatewayProfile)
    → find_profile k profiles ≡ some q
    → str_eq j k ≡ true
    → any (λ (p : GatewayProfile). str_eq p.profile_id j) profiles ≡ true
unfolding find_profile
find_profile-any k j [] q h same = ground arith
find_profile-any k j (p ∷ profiles) q h same =
    ground (arith, eq_iff j k, find_profile-any k j profiles q)

-- a profile of the rest of a list is found in the whole of it, if its name is new
find_profile-rest :
    (p : GatewayProfile) (profiles : List GatewayProfile) (k : String) (q : GatewayProfile)
    → are_unique (p ∷ profiles) ≡ true
    → find_profile k profiles ≡ some q
    → find_profile k (p ∷ profiles) ≡ some q
unfolding find_profile are_unique
find_profile-rest p profiles k q unique h =
    ground (arith, find_profile-any k p.profile_id profiles q)

module _ (request : ModelRequest) (Q : Route → Type 0) (p : GatewayProfile) where
  consider-All :
      (o : Option ModelAdapter) (routes : List Route)
      → ((a : ModelAdapter) → o ≡ some a → admits request p a ≡ true → Q (p, a))
      → All Q routes
      → All Q (consider request p o routes)
  unfolding consider
  consider-All none routes new all = all
  consider-All (some a) routes new all = elim (Bool-cases (admits request p a)) [
    | inl passes ↦ rw passes (new a refl passes, all)
    | inr fails ↦ rw fails all
  ]

  considered :
      (o : Option ModelAdapter) (routes : List Route)
      → All Q (consider request p o routes)
      → All Q routes × ((a : ModelAdapter) → o ≡ some a → admits request p a ≡ true → Q (p, a))
  unfolding consider
  considered none routes all = (all, λ a e yes. cc)
  considered (some b) routes all = elim (Bool-cases (admits request p b)) [
    | inl passes ↦
        let (new, rest) : Q (p, b) × All Q routes = rw passes at all in
        (rest, λ a e admitted. let same : b ≡ a = ground arith in rw (← same) new)
    | inr fails ↦
        let rest : All Q routes = rw fails at all in
        (rest, λ a e admitted. let same : b ≡ a = ground arith in cc (fails, admitted, same))
  ]

module _ (request : ModelRequest) (adapters : List ModelAdapter) where
  candidates-IsCandidate :
      (profiles : List GatewayProfile)
      → are_unique profiles ≡ true
      → All (IsCandidate request adapters profiles) (candidates request adapters profiles)
  unfolding candidates are_unique find_profile
  candidates-IsCandidate [] unique = tt
  candidates-IsCandidate (p ∷ profiles) unique =
      let rest : All (IsCandidate request adapters (p ∷ profiles))
          (candidates request adapters profiles) =
        All-map _
          (λ ((q, a) : Route) (found, admitted, listed).
            (found, admitted, find_profile-rest p profiles q.profile_id q unique listed))
          (candidates-IsCandidate profiles (ground arith)) in
      consider-All request _ p (find_adapter p.adapter_id adapters) _
        (λ a found passes. (found, passes, ground (arith, eq_refl p.profile_id))) rest

  -- What holds of all candidates holds of a profile that is found and admitted.
  candidates-any :
      (Q : Route → Type 0) (profiles : List GatewayProfile) (k : String) (p : GatewayProfile)
      (a : ModelAdapter)
      → find_profile k profiles ≡ some p
      → find_adapter p.adapter_id adapters ≡ some a
      → admits request p a ≡ true
      → All Q (candidates request adapters profiles)
      → Q (p, a)
  unfolding candidates find_profile
  candidates-any Q [] k p a h found admitted all = ground arith
  candidates-any Q (o ∷ profiles) k p a h found admitted all =
      let (rest, new) = considered request Q o (find_adapter o.adapter_id adapters) _ all in
      elim (Bool-cases (str_eq o.profile_id k)) [
        | inl here ↦
            let same : o ≡ p = ground arith in
            let q : Q (o, a) = new a (rw same found) (rw same admitted) in rw same at q
        | inr elsewhere ↦ candidates-any Q profiles k p a (ground arith) found admitted rest
      ]

module _ (Q : Route → Type 0) where
  insert-All : (r : Route) (routes : List Route) → Q r → All Q routes → All Q (insert r routes)
  unfolding insert
  insert-All r [] q all = (q, tt)
  insert-All r (s ∷ routes) q (first, all) = elim (Bool-cases (comes_first r s)) [
    | inl passes ↦ rw passes (q, (first, all))
    | inr fails ↦ rw fails (first, insert-All r routes q all)
  ]

  sort-All : (routes : List Route) → All Q routes → All Q (sort routes)
  unfolding sort
  sort-All [] all = tt
  sort-All (r ∷ routes) (q, all) = insert-All r (sort routes) q (sort-All routes all)

  first_of-All : (routes : List Route) {r : Route} → All Q routes → first_of routes ≡ ok r → Q r
  first_of-All [] all h = ground arith
  first_of-All (s ∷ routes) {r} (q, all) h = let same : s ≡ r = ground arith in rw same at q

abbrev AtMost : ℕ → Route → Type 0
AtMost n (p, _) = n ≤ p.priority

raised : (m n : ℕ) (routes : List Route) → m ≤ n → All (AtMost n) routes → All (AtMost m) routes
raised m n routes h all = All-map routes (λ r k. omega arith) all

of_empty : (Q : Route → Type 0) (routes : List Route) → sort routes ≡ [] → All Q routes
unfolding sort insert
of_empty Q [] h = tt
of_empty Q (r ∷ routes) h = go (sort routes) h
  where
    go : (sorted : List Route) → insert r sorted ≡ [] → All Q (r ∷ routes)
    go [] e = cc
    go (s ∷ sorted) e = elim (Bool-cases (comes_first r s)) [
      | inl passes ↦ let k : r ∷ s ∷ sorted ≡ [] = rw passes at e in cc
      | inr fails ↦ let k : s ∷ insert r sorted ≡ [] = rw fails at e in cc
    ]

-- The first route after sorting has the least priority number.
sort_least :
    (routes : List Route) (r : Route)
    → first_of (sort routes) ≡ ok r
    → All (AtMost r.0.priority) routes
unfolding sort insert
sort_least [] r h = tt
sort_least (s ∷ routes) r h = go (sort_least routes) (sort routes) refl h
  where
    go :
        ((t : Route) → first_of (sort routes) ≡ ok t → All (AtMost t.0.priority) routes)
        → (sorted : List Route) → sort routes ≡ sorted
        → first_of (insert s sorted) ≡ ok r
        → All (AtMost r.0.priority) (s ∷ routes)
    go ih [] e k = (ground arith, of_empty _ routes e)
    go ih (t ∷ sorted) e k =
        let rest : All (AtMost t.0.priority) routes = ih t (rw e refl) in
        elim (Bool-cases (comes_first s t)) [
          | inl passes ↦ (ground arith, raised r.0.priority t.0.priority routes (ground arith) rest)
          | inr fails ↦ (ground arith, raised r.0.priority t.0.priority routes (ground arith) rest)
        ]

-- The route that `select` takes is one that the request's policy admits, of a profile that has its
-- name for itself.
pub selected :
    (gateway : ModelGateway) (request : ModelRequest) (r : Route)
    → are_unique gateway.profiles ≡ true
    → select gateway request ≡ ok r
    → (find_adapter r.0.adapter_id gateway.adapters ≡ some r.1)
      × (admits request r.0 r.1 ≡ true)
      × (find_profile r.0.profile_id gateway.profiles ≡ some r.0)
unfolding select
selected gateway request r unique h =
    let all = candidates-IsCandidate request gateway.adapters gateway.profiles unique in
    first_of-All _ (sort (candidates request gateway.adapters gateway.profiles))
      (sort-All _ (candidates request gateway.adapters gateway.profiles) all) (ground arith)

module _ (request : ModelRequest) (p : GatewayProfile) (a : ModelAdapter) where
  -- What `admits` tests, one by one.
  pub admitted_lem :
      admits request p a ≡ true
      → (any (same_capability request.capability) a.capabilities ≡ true)
        × ((is_local_only request.locality && not a.local) ≡ false)
        × ((request.deterministic_required && not a.deterministic) ≡ false)
        × (leb (level request.classification) (level p.maximum_classification) ≡ true)
        × (leb request.estimated_input_tokens p.max_input_tokens ≡ true)
  unfolding admits
  admitted_lem h =
      passed p.enabled (same_capability p.capability request.capability)
        (any (same_capability request.capability) a.capabilities)
        (not (xor p.local a.local || xor p.deterministic a.deterministic))
        (is_local_only request.locality && not a.local)
        (request.deterministic_required && not a.deterministic)
        (leb (level request.classification) (level p.maximum_classification))
        (leb request.estimated_input_tokens p.max_input_tokens) h

select_fits :
    (gateway : ModelGateway) (request : ModelRequest) (r : Route)
    → select gateway request ≡ ok r
    → (request.estimated_input_tokens ≤ request.budget.max_input_tokens)
      × (first_of (sort (candidates request gateway.adapters gateway.profiles)) ≡ ok r)
unfolding select
select_fits gateway request r h = ground arith

-- The route that `select` takes obeys the request: its adapter has the capability, is local and
-- deterministic if that is asked for, may see data of the request's class, and takes the estimated
-- input; and no profile that the request's policy admits has a lower priority number. The gateway's
-- profiles have names of their own.
pub select_least :
    (gateway : ModelGateway) (request : ModelRequest) (r : Route) (k : String) (p : GatewayProfile)
    (a : ModelAdapter)
    → are_unique gateway.profiles ≡ true
    → select gateway request ≡ ok r
    → find_profile k gateway.profiles ≡ some p
    → find_adapter p.adapter_id gateway.adapters ≡ some a
    → admits request p a ≡ true
    → (r.0.priority ≤ p.priority)
      × (any (same_capability request.capability) r.1.capabilities ≡ true)
      × ((is_local_only request.locality && not r.1.local) ≡ false)
      × ((request.deterministic_required && not r.1.deterministic) ≡ false)
      × (level request.classification ≤ level r.0.maximum_classification)
      × (request.estimated_input_tokens ≤ request.budget.max_input_tokens)
      × (request.estimated_input_tokens ≤ r.0.max_input_tokens)
select_least gateway request r k p a unique h found there admitted =
    let (_, policy, _) = selected gateway request r unique h in
    let (fits, first) = select_fits gateway request r h in
    let (capable, near, sure, open_to, small) = admitted_lem request r.0 r.1 policy in
    let least = sort_least (candidates request gateway.adapters gateway.profiles) r first in
    (
      candidates-any request gateway.adapters (AtMost r.0.priority) gateway.profiles k p a found
          there admitted least,
      capable,
      near,
      sure,
      leb→le _ _ open_to,
      fits,
      leb→le _ _ small,
    )
