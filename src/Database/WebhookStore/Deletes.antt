-- ===== src/Database/WebhookStore/Deletes.antt =====
-- What a delete does to the webhooks that are fired.
use docpulse.Base.{
  ◌++◌, if_both, ◌≡◌, ◌≢◌, refl, ap, subst, ◌↔◌, ◌⊎◌, inl, inr, true, false, ◌&&◌, none, some, [],
  ◌∷◌, arith, ◌==◌, if◌then◌else◌, if_cases, Bool-cases, All,
}
use docpulse.Base.Result.{Result, ok, ok-injective}
use docpulse.Domain.{Uuid, Webhook}
use docpulse.Database.JobStore.{Fault}
use docpulse.Database.WebhookStore.{
  create, has_id, Webhooks, active_of, list_active, deactivated, any_row, delete,
}

-- Without the webhook.
abbrev pub without : Uuid → Webhooks → Webhooks
without id [] = []
without id (w ∷ ws) = if w.id == id then without id ws else w ∷ without id ws

active_of-deactivated :
    (tenant id : Uuid) (ws : Webhooks)
    → active_of tenant (deactivated tenant id ws) ≡ without id (active_of tenant ws)
unfolding active_of deactivated
active_of-deactivated tenant id [] = refl
active_of-deactivated tenant id (w ∷ ws) = ground (arith, active_of-deactivated tenant id ws)

active_of-deactivated_other :
    (tenant other id : Uuid) (ws : Webhooks)
    → other ≢ tenant
    → active_of other (deactivated tenant id ws) ≡ active_of other ws
unfolding active_of deactivated
active_of-deactivated_other tenant other id [] h = refl
active_of-deactivated_other tenant other id (w ∷ ws) h =
    ground (arith, active_of-deactivated_other tenant other id ws h)

active_of_no_row :
    (tenant id : Uuid) (ws : Webhooks)
    → any_row tenant id ws ≡ false
    → active_of tenant ws ≡ without id (active_of tenant ws)
unfolding active_of any_row
active_of_no_row tenant id [] h = refl
active_of_no_row tenant id (w ∷ ws) h = ground (arith, active_of_no_row tenant id ws)

-- The tenant has a webhook with the id.
abbrev pub Owns : Uuid → Uuid → Webhooks → Type 0
Owns tenant id [] = ⊥
Owns tenant id (w ∷ ws) = ((w.id ≡ id) × (w.tenant_id ≡ tenant)) ⊎ Owns tenant id ws

any_row_iff : (tenant id : Uuid) (ws : Webhooks) → (any_row tenant id ws ≡ true) ↔ Owns tenant id ws
unfolding any_row
any_row_iff tenant id [] = (λ h. absurd cc, λ h. absurd h)
any_row_iff tenant id (w ∷ ws) = ground (arith, any_row_iff tenant id ws)

-- A delete that meets no fault of the database succeeds exactly where the tenant owns a webhook
-- with the id. Whether it does or not, the tenant's active webhooks afterwards are the earlier ones
-- without that id, and those of every other tenant are unchanged.
pub delete_active :
    (tenant id other : Uuid) (ws : Webhooks)
    → other ≢ tenant
    → (((delete none tenant id ws).0 ≡ ok tt) ↔ Owns tenant id ws)
      × (list_active none tenant (delete none tenant id ws).1
          ≡ ok (without id (active_of tenant ws)))
      × (list_active none other (delete none tenant id ws).1 ≡ list_active none other ws)
unfolding delete list_active
delete_active tenant id other ws h =
    let (to, from) = any_row_iff tenant id ws in
    elim (Bool-cases (any_row tenant id ws)) [
      | inl e ↦ rw e (
        (λ _. to e, λ _. refl),
        ap ok (active_of-deactivated tenant id ws),
        ap ok (active_of-deactivated_other tenant other id ws h),
      )
      | inr e ↦ rw e (
        (λ h. absurd cc, λ h. absurd (let e' = from h in cc)),
        ap ok (active_of_no_row tenant id ws e),
        refl,
      )
    ]

active_of-IsActive :
    (tenant : Uuid) (ws : Webhooks)
    → All (λ (w : Webhook). (w.tenant_id ≡ tenant) × (w.active ≡ true)) (active_of tenant ws)
unfolding active_of
active_of-IsActive tenant [] = tt
active_of-IsActive tenant (w ∷ ws) =
    if_cases (All (λ (w : Webhook). (w.tenant_id ≡ tenant) × (w.active ≡ true)))
      ((w.tenant_id == tenant) && w.active)
      (λ h. ((ground arith, ground arith), active_of-IsActive tenant ws))
      (λ h. active_of-IsActive tenant ws)

-- What `ListActive` returns is active and the tenant's own.
pub list_active-IsActive :
    (fault : Fault) (tenant : Uuid) (ws hooks : Webhooks)
    → list_active fault tenant ws ≡ ok hooks
    → All (λ (w : Webhook). (w.tenant_id ≡ tenant) × (w.active ≡ true)) hooks
unfolding list_active
list_active-IsActive (some e) tenant ws hooks h = absurd cc
list_active-IsActive none tenant ws hooks h =
    subst (All (λ (w : Webhook). (w.tenant_id ≡ tenant) × (w.active ≡ true))) (ok-injective h)
      (active_of-IsActive tenant ws)

-- A webhook that is added or deleted is none of another tenant's.
active_of-append :
    (u : Uuid) (ws : Webhooks) (w : Webhook)
    → u ≢ w.tenant_id
    → active_of u (ws ++ w ∷ []) ≡ active_of u ws
unfolding active_of
active_of-append u [] w n = ground arith
active_of-append u (v ∷ ws) w n = ground (arith, active_of-append u ws w n)

pub create_others :
    (fault : Fault) (w : Webhook) (ws : Webhooks) (u : Uuid)
    → u ≢ w.tenant_id
    → active_of u (create fault w ws).1 ≡ active_of u ws
unfolding create
create_others (some e) w ws u n = refl
create_others none w ws u n =
    if_both (λ (r : Result (Unit {0}) × Webhooks). active_of u r.1 ≡ active_of u ws) (has_id w ws)
      refl (active_of-append u ws w n)

pub delete_others :
    (fault : Fault) (tenant id : Uuid) (ws : Webhooks) (u : Uuid)
    → u ≢ tenant
    → active_of u (delete fault tenant id ws).1 ≡ active_of u ws
unfolding delete
delete_others (some e) tenant id ws u n = refl
delete_others none tenant id ws u n =
    if_both (λ (r : Result (Unit {0}) × Webhooks). active_of u r.1 ≡ active_of u ws)
      (any_row tenant id ws) (active_of-deactivated_other tenant u id ws n) refl
