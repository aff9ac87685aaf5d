-- ===== src/IpPool/Broker/World/Client.antt =====
-- One step of one seed client keeps the invariant of the pool of pkg/ippool.
use mathlib.Core.Logic.{if_pos, if_neg}
use mathlib.Core.Path.{subst}
use native.Mathlib.Decide.{ℕ_discrete}
use vpn.Prelude.{ℕ, ◌<◌, ◌≡◌, ◌≢◌, refl, sym, ◌∙◌, String, ◌⊎◌, inl, inr}
use vpn.IpPool.Manager.{Pod, PodApi, IsPodApi, pod_ip}
use vpn.IpPool.Manager.Lookup.{OwnPod}
use vpn.IpPool.Broker.World.{Agent, update, World}
use vpn.IpPool.Broker.World.Pods.{OwnPod_eq}
use vpn.IpPool.Broker.World.Moves.{Stage, Claims, Moved}

update-cases :
    (f : ℕ → Agent) (i j : ℕ) (a : Agent)
    → ((i ≡ j) × (update f i a j ≡ a)) ⊎ ((i ≢ j) × (update f i a j ≡ f j))
update-cases f i j a = elim (ℕ_discrete i j) [
  | yes e ↦ inl (e, if_pos (ℕ_discrete i j) e a (f j))
  | no d ↦ inr (d, if_neg (ℕ_discrete i j) d a (f j))
]

abbrev pub name : (api : PodApi) → World api → ℕ → String
name api w i = (w.agents i).broker.own_name

module _ (api : PodApi) (laws : IsPodApi api) where
  open api use {Cluster, pods}

  -- What holds between two steps.
  pub record Inv (n : ℕ) (w : World api) : Type 0 where
    pub names : (i j : ℕ) → i < n → j < n → name api w i ≡ name api w j → i ≡ j
    pub own :
        (i : ℕ)
        → i < n
        → (p : Pod) × OwnPod (name api w i) p (pods w.cluster)
          × Stage (w.agents i).pc (w.agents i).broker p
    pub unique :
        (i j : ℕ) (p q : Pod) (x : String)
        → i < n
        → j < n
        → OwnPod (name api w i) p (pods w.cluster)
        → OwnPod (name api w j) q (pods w.cluster)
        → Claims (w.agents i).pc p x
        → Claims (w.agents j).pc q x
        → i ≡ j

  module _ (n : ℕ) (w : World api) (inv : Inv n w) (i : ℕ) (lt : i < n) (a : Agent) (c : Cluster)
      (moved : Moved api laws
        (name api w i)
        (w.agents i).pc
        (inv.own i lt).0
        w.cluster
        a.pc
        a.broker
        c) where
    abbrev after : World api
    after = record { cluster = c; agents = update w.agents i a }

    -- The clients after the step: client `i` is now `a`, the others are the same.
    after-cases :
        (P : Agent → ℕ → Type 0)
        → P a i
        → ((j : ℕ) → i ≢ j → P (w.agents j) j)
        → (j : ℕ) → P (update w.agents i a j) j
    after-cases P h k j = elim (update-cases w.agents i j a) [
      | inl (e, u) ↦ rw u (subst (P a) e h)
      | inr (d, u) ↦ rw u (k j d)
    ]

    after-name : (j : ℕ) → name api after j ≡ name api w j
    after-name = after-cases (λ b j. b.broker.own_name ≡ name api w j) moved.same_name (λ j d. refl)

    -- Another client's pod is not the pod of client `i`.
    other-name : (j : ℕ) → j < n → i ≢ j → name api w j ≢ name api w i
    other-name j ltj d e = d (sym (inv.names j i ltj lt e))

    after-own :
        (j : ℕ)
        → j < n
        → (p : Pod) × OwnPod (name api after j) p (pods c)
          × Stage (after.agents j).pc (after.agents j).broker p
    after-own =
        after-cases
          (λ b j. j < n → (p : Pod) × OwnPod b.broker.own_name p (pods c) × Stage b.pc b.broker p)
          (λ _. (
            moved.pod,
            subst (λ m. OwnPod m moved.pod (pods c)) (sym moved.same_name) moved.is_own,
            moved.stage,
          ))
          (λ j d ltj.
            let (p, o, s) = inv.own j ltj in
            (p, moved.rest (name api w j) p (other-name j ltj d) o, s))

    -- No other pod has the address.
    abbrev Fresh : String → Type 0
    Fresh x =
        (m : String) (q : Pod) → m ≢ name api w i → OwnPod m q (pods w.cluster) → (pod_ip q).0 ≢ x

    -- A claim after the step was one before it, or it is a new one of client `i`.
    before :
        (j : ℕ)
        → j < n
        → (p : Pod) (x : String) → OwnPod (name api after j) p (pods c)
        → Claims (after.agents j).pc p x
        → (q : Pod) × OwnPod (name api w j) q (pods w.cluster)
          × (Claims (w.agents j).pc q x ⊎ ((i ≡ j) × Fresh x))
    before =
        after-cases
          (λ b j.
            j < n
            → (p : Pod) (x : String) → OwnPod b.broker.own_name p (pods c)
            → Claims b.pc p x
            → (q : Pod) × OwnPod (name api w j) q (pods w.cluster)
              × (Claims (w.agents j).pc q x ⊎ ((i ≡ j) × Fresh x)))
          (λ _ p x o k.
            let same =
              OwnPod_eq (pods c) (subst (λ m. OwnPod m p (pods c)) moved.same_name o)
                moved.is_own in
            let (q, oq, sq) = inv.own i lt in
            (
              q,
              oq,
              elim (moved.claims x (subst (λ r. Claims a.pc r x) same k)) [
                | inl old ↦ inl old
                | inr fresh ↦ inr (refl, fresh)
              ],
            ))
          (λ j d ltj p x o k.
            let (q, oq, sq) = inv.own j ltj in
            let same = OwnPod_eq (pods c) o (moved.rest (name api w j) q (other-name j ltj d) oq) in
            (q, oq, inl (subst (λ r. Claims (w.agents j).pc r x) same k)))

    after_unique :
        (j k : ℕ) (p q : Pod) (x : String)
        → j < n
        → k < n
        → OwnPod (name api after j) p (pods c)
        → OwnPod (name api after k) q (pods c)
        → Claims (after.agents j).pc p x
        → Claims (after.agents k).pc q x
        → j ≡ k
    after_unique j k p q x ltj ltk op oq cp cq =
        let (p0, op0, kp) = before j ltj p x op cp in
        let (q0, oq0, kq) = before k ltk q x oq cq in
        elim kp [
          | inl old ↦ elim kq [
            | inl old' ↦ inv.unique j k p0 q0 x ltj ltk op0 oq0 old old'
            | inr (e, fresh) ↦ apart fresh e j ltj p0 op0 old
          ]
          | inr (e, fresh) ↦ elim kq [
            | inl old' ↦ sym (apart fresh e k ltk q0 oq0 old')
            | inr (e', fresh') ↦ sym e ∙ e'
          ]
        ]
      where
        apart :
            {l : ℕ}
            → Fresh x
            → i ≡ l
            → (m : ℕ) → m < n
            → (r : Pod) → OwnPod (name api w m) r (pods w.cluster)
            → Claims (w.agents m).pc r x
            → m ≡ l
        apart fresh e m ltm r o k = elim (ℕ_discrete i m) [
          | yes same ↦ sym same ∙ e
          | no d ↦ absurd (fresh (name api w m) r (other-name m ltm d) o k.0)
        ]

    pub after-Inv : Inv n after
    after-Inv = record {
      names = λ j k ltj ltk e. inv.names j k ltj ltk (sym (after-name j) ∙ (e ∙ after-name k));
      own = after-own;
      unique = after_unique;
    }
