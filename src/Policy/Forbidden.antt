-- ===== src/Policy/Forbidden.antt =====
-- The hard target blocklist: which actions can never run, approved or not.
use eir.Prelude.{
  ◌≡◌, refl, ◌↔◌, ◌⊎◌, inl, inr, true, false, Bool, Bool-cases, some, List, arith, if◌then◌else◌,
  Memᴰ, any, any_iff,
}
use eir.Text.{Text, Unicode, member}
use eir.Text.Laws.{text_eq_iff}
use eir.Float.{F32}
use eir.WindowsPath.{is_within}
use eir.WindowsPath.Remote.{IsRemote, is_network_path_iff}
use eir.WindowsPath.Contains.{Contains, is_within-Contains_iff}
use eir.Models.{
  FixAction, service_restart, service_stop, service_start, log_cleanup, task_disable, task_enable,
  registry_reset, file_delete,
}
use eir.Policy.{
  ExecutionPolicy, block, disabled_by_policy, Reason, when, evaluate, blocked_reason, path_blocked,
  task_blocked, service_blocked, action_type_name,
}

guarded {ℓ} :
    {P : Type ℓ} (b : Bool) (r : Reason) → (b ≡ true) ↔ P → ((x : Reason) × (when b r ≡ some x)) ↔ P
guarded b r f = (λ h. f.0 (to b h.1), λ p. (r, rw (f.1 p)))
  where
    to : (b : Bool) {x : Reason} → when b r ≡ some x → b ≡ true
    to b e = ground arith

true-false : false ≡ true → ⊥
true-false e = cc

guarded_path {ℓ κ} :
    {N : Type κ} {P : Type ℓ} (n b : Bool) (r s : Reason)
    → (n ≡ true) ↔ N
    → (b ≡ true) ↔ P
    → ((x : Reason) × ((if n then some r else when b s) ≡ some x)) ↔ (N ⊎ P)
guarded_path true b r s g f = (λ h. inl (g.0 refl), λ p. (r, refl))
guarded_path false b r s g f =
    let (to, from) = guarded b s f in
    (λ h. inr (to h), λ p. elim p [ inl e ↦ absurd (true-false (g.1 e)) | inr q ↦ from q ])

module _ (u : Unicode) where
  -- Some listed ancestor contains the target.
  abbrev pub Listed : List Text → Text → Type 0
  Listed bs path = (b : Text) × Memᴰ b bs × Contains u b path

  -- Some listed name equals the target up to case.
  abbrev pub Named : List Text → Text → Type 0
  Named bs name = (b : Text) × Memᴰ b bs × (u.to_lowercase b ≡ u.to_lowercase name)

  abbrev pub IsForbidden : ExecutionPolicy → FixAction → Type 0
  IsForbidden pol (log_cleanup p _) = IsRemote p ⊎ Listed pol.blocked_paths p
  IsForbidden pol (file_delete p) = IsRemote p ⊎ Listed pol.blocked_paths p
  IsForbidden pol (service_restart n) = Named pol.blocked_services n
  IsForbidden pol (service_stop n) = Named pol.blocked_services n
  IsForbidden pol (service_start n) = Named pol.blocked_services n
  IsForbidden pol (registry_reset k _ _) = Listed pol.blocked_paths k
  IsForbidden pol (task_disable n) = Listed pol.blocked_tasks n
  IsForbidden pol (task_enable n) = Listed pol.blocked_tasks n
  IsForbidden pol _ = ⊥

  any-Listed_iff :
      (bs : List Text) (path : Text) → (any (λ b. is_within u path b) bs ≡ true) ↔ Listed bs path
  any-Listed_iff bs path =
      let (to, from) = any_iff (λ b. is_within u path b) bs in
      (
        λ h. let (b, m, e) = to h in (b, m, (is_within-Contains_iff u path b).0 e),
        λ (b, m, e). from (b, m, (is_within-Contains_iff u path b).1 e),
      )

  path_blocked_iff :
      (pol : ExecutionPolicy) (p : Text)
      → (path_blocked u pol p ≡ true) ↔ Listed pol.blocked_paths p
  unfolding path_blocked
  path_blocked_iff pol p = any-Listed_iff pol.blocked_paths p

  task_blocked_iff :
      (pol : ExecutionPolicy) (n : Text)
      → (task_blocked u pol n ≡ true) ↔ Listed pol.blocked_tasks n
  unfolding task_blocked
  task_blocked_iff pol n = any-Listed_iff pol.blocked_tasks n

  service_blocked_iff :
      (pol : ExecutionPolicy) (n : Text)
      → (service_blocked u pol n ≡ true) ↔ Named pol.blocked_services n
  unfolding service_blocked
  service_blocked_iff pol n = (
    λ h. let (b, m, e) = (any_iff _ pol.blocked_services).0 h in (b, m, (text_eq_iff _ _).0 e),
    λ p. (any_iff _ pol.blocked_services).1 (p.0, p.1, (text_eq_iff _ _).1 p.2),
  )

  -- A blocked reason is found exactly for a forbidden target: a file action whose path leads to another
  -- machine or that a listed path contains, a registry or task action whose target a listed one
  -- contains, or a service action whose service is listed, in any case. Remote is a path with two
  -- separators in front, of either kind, after white space. One path contains another where its
  -- components, of which there is one at least, are the first of the other's: the parts between the
  -- separators, after a long hive name is shortened and a verbatim mark dropped, lowercased, without
  -- the blank ones and those that a later `..` takes, which never takes the root.
  pub blocked_reason_iff :
      (pol : ExecutionPolicy) (action : FixAction)
      → ((r : Reason) × (blocked_reason u pol action ≡ some r)) ↔ IsForbidden pol action
  unfolding blocked_reason
  blocked_reason_iff pol (log_cleanup p d) =
      guarded_path _ _ _ _ (is_network_path_iff p) (path_blocked_iff pol p)
  blocked_reason_iff pol (file_delete p) =
      guarded_path _ _ _ _ (is_network_path_iff p) (path_blocked_iff pol p)
  blocked_reason_iff pol (service_restart n) = guarded _ _ (service_blocked_iff pol n)
  blocked_reason_iff pol (service_stop n) = guarded _ _ (service_blocked_iff pol n)
  blocked_reason_iff pol (service_start n) = guarded _ _ (service_blocked_iff pol n)
  blocked_reason_iff pol (registry_reset k v d) = guarded _ _ (path_blocked_iff pol k)
  blocked_reason_iff pol (task_disable n) = guarded _ _ (task_blocked_iff pol n)
  blocked_reason_iff pol (task_enable n) = guarded _ _ (task_blocked_iff pol n)
  blocked_reason_iff pol _ = (λ h. cc (h.1), λ h. absurd h)

  -- A forbidden action is blocked at every confidence, whatever else the policy says: it neither
  -- runs by itself nor reaches the approval queue.
  pub evaluate_of_IsForbidden :
      (pol : ExecutionPolicy) (action : FixAction) (confidence : F32)
      → IsForbidden pol action
      → (r : Reason) × (evaluate u pol action confidence ≡ block r)
  unfolding evaluate
  evaluate_of_IsForbidden pol action confidence h =
      let (r, e) = (blocked_reason_iff pol action).1 h in
      elim (Bool-cases (member (action_type_name action) pol.blocked_actions)) [
        | inl d ↦ (disabled_by_policy (action_type_name action), rw d)
        | inr d ↦ (r, rw (d, e))
      ]
