-- ===== src/Webhook/Deliverer/Backoff.antt =====
-- The attempts of a delivery: how many, how long apart, and when one of them counts.
use docpulse.Base.{
  ℕ, zero, suc, ◌+◌, ◌*◌, ◌≤◌, ◌<◌, ◌≡◌, refl, ap, subst, ◌↔◌, inl, inr, true, false, Option, none,
  some, List, [], ◌∷◌, String, arith, leb, if◌then◌else◌, length, Bool-cases, if_both,
}
use docpulse.Base.Result.{ok}
use docpulse.Domain.{Time}
use docpulse.Webhook.Deliverer.{
  Deliverer, Delivery, Network, is_delivered, start_backoff, attempts, after_wait, deliver, counted,
  on_request,
}

-- Each wait is twice the wait before it, and the first is `backoff`.
abbrev pub IsDoubling : Time → List Time → Type 0
IsDoubling backoff [] = Unit
IsDoubling backoff (w ∷ ws) = (w ≡ backoff) × IsDoubling (backoff * 2) ws

-- The POSTs from `n` on fail without a cancelled wait until, after `k` of them, one is delivered.
abbrev pub IsDeliveredAfter : Network → ℕ → ℕ → Type 0
IsDeliveredAfter net n zero = is_delivered (net.answer n) ≡ true
IsDeliveredAfter net n (suc k) =
    (is_delivered (net.answer n) ≡ false)
    × (net.cancelled n ≡ none)
    × IsDeliveredAfter net (n + 1) k

abbrev success : Delivery
success = record { result = ok tt; posts = 0; waits = [] }

attempts_next :
    (net : Network) (left n : ℕ) (backoff : Time)
    → attempts net (suc (suc left)) n backoff ≡ (
        if is_delivered (net.answer n)
        then counted success
        else counted (
            after_wait net backoff
              (net.cancelled n)
              (attempts net (suc left) (n + 1) (backoff * 2))))
unfolding attempts
attempts_next net left n backoff = let h : leb 1 (suc left) ≡ true = ground arith in simp h refl

abbrev IsPaced : ℕ → Time → Delivery → Type 0
IsPaced left backoff d =
    (d.posts ≡ length d.waits + 1) × (d.posts ≤ suc left) × IsDoubling backoff d.waits

counted-after_wait-IsPaced :
    (net : Network) (left : ℕ) (backoff : Time) (why : Option String) (rest : Delivery)
    → IsPaced left (backoff * 2) rest
    → IsPaced (suc left) backoff (counted (after_wait net backoff why rest))
unfolding after_wait
counted-after_wait-IsPaced net left backoff none rest (p, q, h) =
    (omega arith, omega arith, (refl, h))
counted-after_wait-IsPaced net left backoff (some why) rest h = (refl, omega arith, tt)

last-IsPaced :
    (net : Network) (n : ℕ) (backoff : Time) → IsPaced 0 backoff (attempts net 1 n backoff)
unfolding attempts
last-IsPaced net n backoff =
    if_both (IsPaced 0 backoff) (is_delivered (net.answer n)) (refl, omega arith, tt)
      (refl, omega arith, tt)

attempts-IsPaced :
    (net : Network) (left n : ℕ) (backoff : Time)
    → IsPaced left backoff (attempts net (suc left) n backoff)
attempts-IsPaced net zero n backoff = last-IsPaced net n backoff
attempts-IsPaced net (suc left) n backoff = rw attempts_next (
    if_both (IsPaced (suc left) backoff) (is_delivered (net.answer n)) (refl, omega arith, tt)
      (counted-after_wait-IsPaced net left backoff (net.cancelled n)
        (attempts net (suc left) (n + 1) (backoff * 2))
        (attempts-IsPaced net left (n + 1) (backoff * 2))))

deliver-attempts :
    (net : Network) (d : Deliverer)
    → net.create_request ≡ none
    → deliver net d ≡ attempts net 5 1 (start_backoff d)
unfolding deliver on_request
deliver-attempts net d h = ap (λ request. on_request net request d) h

-- A delivery whose request can be created makes at least one and at most five POSTs, with one wait
-- between each two of them; the first wait is the initial backoff, one second where it is 0, and
-- each further wait is twice as long as the one before.
pub deliver-IsPaced :
    (net : Network) (d : Deliverer)
    → net.create_request ≡ none
    → ((deliver net d).posts ≡ length (deliver net d).waits + 1)
      × ((deliver net d).posts ≤ 5)
      × IsDoubling (start_backoff d) (deliver net d).waits
deliver-IsPaced net d h =
    simp (deliver-attempts net d h) (attempts-IsPaced net 4 1 (start_backoff d))

last_iff :
    (net : Network) (n : ℕ) (backoff : Time)
    → ((attempts net 1 n backoff).result ≡ ok tt) ↔ (is_delivered (net.answer n) ≡ true)
unfolding attempts
last_iff net n backoff = ground arith

counted-after_wait_iff :
    (net : Network) (backoff : Time) (why : Option String) (rest : Delivery)
    → ((counted (after_wait net backoff why rest)).result ≡ ok tt)
      ↔ ((why ≡ none) × (rest.result ≡ ok tt))
unfolding after_wait
counted-after_wait_iff net backoff none rest = (λ h. (refl, h), λ h. h.1)
counted-after_wait_iff net backoff (some why) rest = (λ h. absurd cc, λ h. absurd cc)

-- A first POST that fails is one of the failures.
later_failures :
    (net : Network) (n k : ℕ)
    → is_delivered (net.answer n) ≡ false
    → IsDeliveredAfter net n k
    → (j : ℕ) × (k ≡ suc j)
      × (is_delivered (net.answer n) ≡ false)
      × (net.cancelled n ≡ none)
      × IsDeliveredAfter net (n + 1) j
later_failures net n zero e h = absurd cc
later_failures net n (suc j) e (f, c, d) = (j, refl, f, c, d)

attempts_iff :
    (net : Network) (left n : ℕ) (backoff : Time)
    → ((attempts net (suc left) n backoff).result ≡ ok tt)
      ↔ ((k : ℕ) × (k ≤ left) × IsDeliveredAfter net n k)
attempts_iff net zero n backoff =
    let (to, from) = last_iff net n backoff in
    (
      λ h. (0, omega arith, to h),
      λ (k, l, h).
          let none_left : k ≡ 0 = omega arith in
          from (subst (λ j. IsDeliveredAfter net n j) none_left h),
    )
attempts_iff net (suc left) n backoff =
    let (to, from) = attempts_iff net left (n + 1) (backoff * 2) in
    let rest = attempts net (suc left) (n + 1) (backoff * 2) in
    let (wto, wfrom) = counted-after_wait_iff net backoff (net.cancelled n) rest in
    elim (Bool-cases (is_delivered (net.answer n))) [
      | inl e ↦ (λ _. (0, omega arith, e), λ _. rw (attempts_next, e) refl)
      | inr e ↦ (
        λ h.
            let (c, r) = wto (rw (attempts_next, e) at h) in
            let (k, l, d) = to r in (suc k, omega arith, (e, c, d)),
        λ (k, l, h).
            let (j, q, f, c, d) = later_failures net n k e h in
            rw (attempts_next, e) (wfrom (c, from (j, omega arith, d))),
      )
    ]

-- A delivery whose request can be created succeeds exactly where one of the first five POSTs is
-- answered with a 2xx status, the POSTs before it are not, and the context ends in none of the
-- waits before it.
pub deliver_iff :
    (net : Network) (d : Deliverer)
    → net.create_request ≡ none
    → ((deliver net d).result ≡ ok tt)
      ↔ ((failures : ℕ) × (failures < 5) × IsDeliveredAfter net 1 failures)
deliver_iff net d h =
    let (to, from) = attempts_iff net 4 1 (start_backoff d) in
    (
      λ e. let (k, l, f) = to (simp (deliver-attempts net d h) at e) in (k, omega arith, f),
      λ (k, l, f). simp (deliver-attempts net d h) (from (k, omega arith, f)),
    )
