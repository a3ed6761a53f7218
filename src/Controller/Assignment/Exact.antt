-- ===== src/Controller/Assignment/Exact.antt =====
-- internal/controller/fsm.go: validatePartitionSpec against a description of the allowed ones.
use distributed_messaging_sy.Common.{
  ℕ, ◌≡◌, ◌⊎◌, ◌↔◌, refl, true, false, ◌||◌, List, [], ◌∷◌, arith, contains, distinct, nat_eq,
  Assoc, inl, inr, is_empty,
}
use distributed_messaging_sy.Controller.State.{BrokerInfo, Result, ControllerError, ok, err}
use distributed_messaging_sy.Controller.Assignment.{
  is_registered, is_live, check_replicas, check_isr, validate_partition_spec,
}

-- Replicas and ISR name no broker twice; every replica is registered; every ISR member is a
-- replica that is registered and not fenced; the leader is in the ISR.
pub record IsAssignment (brokers : Assoc ℕ BrokerInfo) (leader : ℕ) (replicas isr : List ℕ)
    : Type 0 where
  pub distinct_replicas : distinct replicas ≡ true
  pub distinct_isr : distinct isr ≡ true
  pub known : (r : ℕ) → contains replicas r ≡ true → is_registered brokers r ≡ true
  pub isr_replicas : (m : ℕ) → contains isr m ≡ true → contains replicas m ≡ true
  pub isr_live : (m : ℕ) → contains isr m ≡ true → is_live brokers m ≡ true
  pub leader_in_isr : contains isr leader ≡ true

-- What a run of the loop over the replicas tells when it ends well.
record HasReplicas (brokers : Assoc ℕ BrokerInfo) (seen rs s : List ℕ) : Type 0 where
  no_repeat : distinct rs ≡ true
  unseen : (x : ℕ) → contains rs x ≡ true → contains seen x ≡ false
  registered : (x : ℕ) → contains rs x ≡ true → is_registered brokers x ≡ true
  collected : (x : ℕ) → contains s x ≡ (contains seen x || contains rs x)

check_replicas-ok :
    (brokers : Assoc ℕ BrokerInfo) (seen rs s : List ℕ)
    → check_replicas brokers seen rs ≡ ok s
    → HasReplicas brokers seen rs s
unfolding check_replicas contains distinct
check_replicas-ok brokers seen [] s h = record {
  no_repeat = refl;
  unseen = λ x p. cc;
  registered = λ x p. cc;
  collected = λ x. ground arith;
}
check_replicas-ok brokers seen (r ∷ rs) s h =
    let fresh : contains seen r ≡ false = ground arith in
    let reg : is_registered brokers r ≡ true = ground arith in
    let ih = check_replicas-ok brokers (r ∷ seen) rs s (ground arith) in
    record {
      no_repeat = ground (arith, ih.unseen r, ih.no_repeat);
      unseen = λ x p. ground (arith, ih.unseen x, fresh);
      registered = λ x p. ground (arith, ih.registered x, reg);
      collected = λ x. ground (arith, ih.collected x);
    }

-- And when it does.
check_replicas_complete :
    (brokers : Assoc ℕ BrokerInfo) (seen rs : List ℕ)
    → distinct rs ≡ true
    → ((x : ℕ) → contains rs x ≡ true → contains seen x ≡ false)
    → ((x : ℕ) → contains rs x ≡ true → is_registered brokers x ≡ true)
    → (s : List ℕ) × (check_replicas brokers seen rs ≡ ok s)
unfolding check_replicas contains distinct
check_replicas_complete brokers seen [] d u k = (seen, refl)
check_replicas_complete brokers seen (r ∷ rs) d u k =
    let fresh = u r (ground arith) in
    let reg = k r (ground arith) in
    let (s, done) =
      check_replicas_complete brokers (r ∷ seen) rs (ground arith) (λ x p. ground (arith, u x))
        (λ x p. ground (arith, k x)) in
    (s, ground arith)

record HasIsr (brokers : Assoc ℕ BrokerInfo) (replica_set seen ms s : List ℕ) : Type 0 where
  no_repeat : distinct ms ≡ true
  unseen : (x : ℕ) → contains ms x ≡ true → contains seen x ≡ false
  replica : (x : ℕ) → contains ms x ≡ true → contains replica_set x ≡ true
  live : (x : ℕ) → contains ms x ≡ true → is_live brokers x ≡ true
  collected : (x : ℕ) → contains s x ≡ (contains seen x || contains ms x)

check_isr-ok :
    (brokers : Assoc ℕ BrokerInfo) (replica_set seen ms s : List ℕ)
    → check_isr brokers replica_set seen ms ≡ ok s
    → HasIsr brokers replica_set seen ms s
unfolding check_isr contains distinct
check_isr-ok brokers replica_set seen [] s h = record {
  no_repeat = refl;
  unseen = λ x p. cc;
  replica = λ x p. cc;
  live = λ x p. cc;
  collected = λ x. ground arith;
}
check_isr-ok brokers replica_set seen (m ∷ ms) s h =
    let fresh : contains seen m ≡ false = ground arith in
    let rep : contains replica_set m ≡ true = ground arith in
    let alive : is_live brokers m ≡ true = ground arith in
    let ih = check_isr-ok brokers replica_set (m ∷ seen) ms s (ground arith) in
    record {
      no_repeat = ground (arith, ih.unseen m, ih.no_repeat);
      unseen = λ x p. ground (arith, ih.unseen x, fresh);
      replica = λ x p. ground (arith, ih.replica x, rep);
      live = λ x p. ground (arith, ih.live x, alive);
      collected = λ x. ground (arith, ih.collected x);
    }

check_isr_complete :
    (brokers : Assoc ℕ BrokerInfo) (replica_set seen ms : List ℕ)
    → distinct ms ≡ true
    → ((x : ℕ) → contains ms x ≡ true → contains seen x ≡ false)
    → ((x : ℕ) → contains ms x ≡ true → contains replica_set x ≡ true)
    → ((x : ℕ) → contains ms x ≡ true → is_live brokers x ≡ true)
    → (s : List ℕ) × (check_isr brokers replica_set seen ms ≡ ok s)
unfolding check_isr contains distinct
check_isr_complete brokers replica_set seen [] d u r k = (seen, refl)
check_isr_complete brokers replica_set seen (m ∷ ms) d u r k =
    let fresh = u m (ground arith) in
    let rep = r m (ground arith) in
    let alive = k m (ground arith) in
    let (s, done) =
      check_isr_complete brokers replica_set (m ∷ seen) ms (ground arith)
        (λ x p. ground (arith, u x)) (λ x p. ground (arith, r x)) (λ x p. ground (arith, k x)) in
    (s, ground arith)

pub Result-cases {ℓ} :
    {A : Type ℓ} (r : Result A) → ((a : A) × (r ≡ ok a)) ⊎ ((e : ControllerError) × (r ≡ err e))
Result-cases (ok a) = inl (a, refl)
Result-cases (err e) = inr (e, refl)

IsAssignment-of_valid :
    (brokers : Assoc ℕ BrokerInfo) (leader : ℕ) (replicas isr : List ℕ)
    → validate_partition_spec brokers leader replicas isr ≡ ok tt
    → IsAssignment brokers leader replicas isr
unfolding validate_partition_spec
IsAssignment-of_valid brokers leader replicas isr h =
    elim (Result-cases (check_replicas brokers [] replicas)) [
      | inr (e, p) ↦ absurd (ground arith)
      | inl (rs, p) ↦ elim (Result-cases (check_isr brokers rs [] isr)) [
        | inr (e, q) ↦ absurd (ground arith)
        | inl (ms, q) ↦
            let r = check_replicas-ok brokers [] replicas rs p in
            let i = check_isr-ok brokers rs [] isr ms q in
            record {
              distinct_replicas = r.no_repeat;
              distinct_isr = i.no_repeat;
              known = r.registered;
              isr_replicas = λ m c. unfold contains in ground (arith, i.replica m c, r.collected m);
              isr_live = i.live;
              leader_in_isr = unfold contains in ground (arith, i.collected leader);
            }
      ]
    ]

not_empty : (xs : List ℕ) (x : ℕ) → contains xs x ≡ true → is_empty xs ≡ false
unfolding contains
not_empty [] x h = cc
not_empty (y ∷ ys) x h = refl

valid_of_assignment :
    (brokers : Assoc ℕ BrokerInfo) (leader : ℕ) (replicas isr : List ℕ)
    → IsAssignment brokers leader replicas isr
    → validate_partition_spec brokers leader replicas isr ≡ ok tt
unfolding validate_partition_spec
valid_of_assignment brokers leader replicas isr a =
    let (rs, p) =
      check_replicas_complete brokers [] replicas a.distinct_replicas
        (λ x c. unfold contains in refl) a.known in
    let r = check_replicas-ok brokers [] replicas rs p in
    let in_rs : (x : ℕ) → contains replicas x ≡ true → contains rs x ≡ true =
      λ x c. unfold contains in ground (arith, r.collected x) in
    let (ms, q) =
      check_isr_complete brokers rs [] isr a.distinct_isr (λ x c. unfold contains in refl)
        (λ x c. in_rs x (a.isr_replicas x c)) a.isr_live in
    let i = check_isr-ok brokers rs [] isr ms q in
    let in_ms : contains ms leader ≡ true =
      unfold contains in ground (arith, i.collected leader, a.leader_in_isr) in
    ground (
      arith,
      p,
      q,
      in_ms,
      in_rs leader (a.isr_replicas leader a.leader_in_isr),
      a.isr_live leader a.leader_in_isr,
      not_empty replicas leader (a.isr_replicas leader a.leader_in_isr),
    )

-- validatePartitionSpec accepts exactly the assignments described: no broker twice in the replicas
-- or in the ISR, replicas registered, ISR members replicas and live, and the leader in the ISR.
pub validate_partition_spec_iff :
    (brokers : Assoc ℕ BrokerInfo) (leader : ℕ) (replicas isr : List ℕ)
    → (validate_partition_spec brokers leader replicas isr ≡ ok tt)
      ↔ IsAssignment brokers leader replicas isr
validate_partition_spec_iff brokers leader replicas isr = (
  IsAssignment-of_valid brokers leader replicas isr,
  valid_of_assignment brokers leader replicas isr,
)
