-- ===== src/Storage/Paths.antt =====
-- The paths of internal/storage/store.go: a key of plain parts gives a path that ends in them.
use docpulse.Base.{
  ◌≡◌, ◌≢◌, refl, sym, ap, ◌∙◌, Bool, true, false, List, [], ◌∷◌, ◌++◌, append_assoc, ◌==◌, arith,
  length, length-append, All, Bool-cases, inl, inr,
}
use docpulse.Text.Utf8.{Bytes}
use docpulse.Storage.{
  slash, to_first, components, same_bytes, is_here, is_parent, add_component, resolve, join_back,
  print_path, is_rooted, clean, join,
}

pub same_bytes_eq : (a b : Bytes) → same_bytes a b ≡ true → a ≡ b
unfolding same_bytes
same_bytes_eq [] [] h = refl
same_bytes_eq [] (b ∷ t) h = absurd cc
same_bytes_eq (a ∷ s) [] h = absurd cc
same_bytes_eq (a ∷ s) (b ∷ t) h = ground (arith, same_bytes_eq s t)

pub same_bytes_refl : (a : Bytes) → same_bytes a a ≡ true
unfolding same_bytes
same_bytes_refl [] = refl
same_bytes_refl (a ∷ s) = ground (arith, same_bytes_refl s)

-- One part of a path, which `Clean` keeps.
pub record IsPlain (c : Bytes) : Type 0 where
  pub no_slash : All (λ b. (b == slash) ≡ false) c
  pub not_here : is_here c ≡ false
  pub not_parent : is_parent c ≡ false

to_first-append :
    (b : _) (xs ys : List Bytes) → xs ≢ [] → to_first b (xs ++ ys) ≡ to_first b xs ++ ys
to_first-append b [] ys n = absurd (n refl)
to_first-append b (x ∷ xs) ys n = refl

to_first_ne_nil : (b : _) (xs : List Bytes) → to_first b xs ≢ []
to_first_ne_nil b [] e = cc
to_first_ne_nil b (x ∷ xs) e = cc

components_ne_nil : (s : Bytes) → components s ≢ []
unfolding components
components_ne_nil [] e = cc
components_ne_nil (b ∷ s) e = elim (Bool-cases (b == slash)) [
  | inl h ↦ absurd (let f : ([] ∷ components s) ≡ [] = rw h at e in cc)
  | inr h ↦ to_first_ne_nil b (components s) (rw h at e)
]

pub components-append : (x y : Bytes) → components (x ++ slash ∷ y) ≡ components x ++ components y
unfolding components
components-append [] y = refl
components-append (b ∷ x) y = elim (Bool-cases (b == slash)) [
  | inl h ↦ rw (h, components-append x y)
  | inr h ↦
      rw (h, components-append x y)
        (to_first-append b (components x) (components y) (components_ne_nil x))
]

components_of_no_slash : (c : Bytes) → All (λ b. (b == slash) ≡ false) c → components c ≡ c ∷ []
unfolding components
components_of_no_slash [] h = refl
components_of_no_slash (b ∷ c) (h, hs) = rw (h, components_of_no_slash c hs)

resolve-append :
    (r : Bool) (kept xs ys : List Bytes)
    → resolve r kept (xs ++ ys) ≡ resolve r (resolve r kept xs) ys
unfolding resolve
resolve-append r kept [] ys = refl
resolve-append r kept (x ∷ xs) ys = resolve-append r (add_component r kept x) xs ys

add_component_plain :
    (r : Bool) (kept : List Bytes) (c : Bytes) → IsPlain c → add_component r kept c ≡ c ∷ kept
unfolding add_component
add_component_plain r kept c p = rw (p.not_here, p.not_parent)

-- The parts that stand in front of the last ones in a path.
behind : List Bytes → List Bytes
behind [] = []
behind (c ∷ kept) = components (join_back (c ∷ kept))

components-join_back :
    (c : Bytes) (kept : List Bytes)
    → IsPlain c
    → components (join_back (c ∷ kept)) ≡ behind kept ++ c ∷ []
unfolding join_back behind
components-join_back c [] p = components_of_no_slash c p.no_slash
components-join_back c (d ∷ kept) p =
    components-append (join_back (d ∷ kept)) c
    ∙ ap (λ x. components (join_back (d ∷ kept)) ++ x) (components_of_no_slash c p.no_slash)

lead : Bool → List Bytes → List Bytes
lead true kept = [] ∷ behind kept
lead false kept = behind kept

-- A key of three plain parts.
abbrev pub key_of : Bytes → Bytes → Bytes → Bytes
key_of a b c = a ++ (slash ∷ (b ++ slash ∷ c))

components-key_of :
    (a b c : Bytes) → IsPlain a → IsPlain b → IsPlain c → components (key_of a b c) ≡ a ∷ b ∷ c ∷ []
components-key_of a b c p q r =
    let first : components (key_of a b c) ≡ components a ++ components (b ++ slash ∷ c) =
      components-append a (b ++ slash ∷ c) in
    rw (
      first,
      components-append b c,
      components_of_no_slash a p.no_slash,
      components_of_no_slash b q.no_slash,
      components_of_no_slash c r.no_slash,
    )

components-join_back_of_key :
    (kept : List Bytes) (a b c : Bytes)
    → IsPlain a
    → IsPlain b
    → IsPlain c
    → components (join_back (c ∷ b ∷ a ∷ kept)) ≡ behind kept ++ a ∷ b ∷ c ∷ []
unfolding behind
components-join_back_of_key kept a b c p q r =
    rw
      (
        components-join_back c (b ∷ a ∷ kept) r,
        components-join_back b (a ∷ kept) q,
        components-join_back a kept p,
      )
      (append_assoc (behind kept ++ a ∷ []) (b ∷ []) (c ∷ [])
        ∙ append_assoc (behind kept) (a ∷ []) (b ∷ c ∷ []))

components-print_path :
    (r : Bool) (kept : List Bytes) (a b c : Bytes)
    → IsPlain a
    → IsPlain b
    → IsPlain c
    → components (print_path r (c ∷ b ∷ a ∷ kept)) ≡ lead r kept ++ a ∷ b ∷ c ∷ []
unfolding print_path lead components
components-print_path true kept a b c p q s =
    ap (λ x. [] ∷ x) (components-join_back_of_key kept a b c p q s)
components-print_path false kept a b c p q s = components-join_back_of_key kept a b c p q s

-- Joining a base directory and a key of plain parts.
pub join-key_of :
    (base a b c : Bytes)
    → base ≢ []
    → IsPlain a
    → IsPlain b
    → IsPlain c
    → join base (key_of a b c)
      ≡ print_path (is_rooted base) (c ∷ b ∷ a ∷ resolve (is_rooted base) [] (components base))
unfolding join clean resolve
join-key_of [] a b c n p q r = absurd (n refl)
join-key_of (x ∷ base) a b c n p q r =
    let rooted = x == slash in
    let parts : components (x ∷ (base ++ slash ∷ key_of a b c))
        ≡ components (x ∷ base) ++ a ∷ b ∷ c ∷ [] =
      components-append (x ∷ base) (key_of a b c)
      ∙ ap (λ k. components (x ∷ base) ++ k) (components-key_of a b c p q r) in
    ap (λ k. print_path rooted (resolve rooted [] k)) parts
    ∙ ap (print_path rooted) (
        resolve-append rooted [] (components (x ∷ base)) (a ∷ b ∷ c ∷ [])
        ∙ rw (
          add_component_plain rooted (resolve rooted [] (components (x ∷ base))) a p,
          add_component_plain rooted (a ∷ resolve rooted [] (components (x ∷ base))) b q,
          add_component_plain rooted (b ∷ a ∷ resolve rooted [] (components (x ∷ base))) c r,
        ))

append-cancel : (xs : List Bytes) {ys zs : List Bytes} → xs ++ ys ≡ xs ++ zs → ys ≡ zs
append-cancel [] e = e
append-cancel (x ∷ xs) e = append-cancel xs cc

-- Two such keys that differ in the second part give two paths under one base directory.
pub join-key_of_ne :
    (base a b c a' b' c' : Bytes)
    → base ≢ []
    → IsPlain a
    → IsPlain b
    → IsPlain c
    → IsPlain a'
    → IsPlain b'
    → IsPlain c'
    → b ≢ b'
    → join base (key_of a b c) ≢ join base (key_of a' b' c')
join-key_of_ne base a b c a' b' c' n p q r p' q' r' ne e =
    let kept = resolve (is_rooted base) [] (components base) in
    let same =
      sym (components-print_path (is_rooted base) kept a b c p q r)
      ∙ ap components
          (sym (join-key_of base a b c n p q r) ∙ e ∙ join-key_of base a' b' c' n p' q' r')
      ∙ components-print_path (is_rooted base) kept a' b' c' p' q' r' in
    let parts = append-cancel (lead (is_rooted base) kept) same in ne cc

print_path_ne_nil : (r : Bool) (kept : List Bytes) (b c : Bytes) → print_path r (c ∷ b ∷ kept) ≢ []
unfolding print_path join_back
print_path_ne_nil true kept b c e = cc
print_path_ne_nil false kept b c e =
    omega (arith, length-append (join_back (b ∷ kept)) (slash ∷ c), ap length e)

pub join-key_of_ne_nil :
    (base a b c : Bytes)
    → base ≢ []
    → IsPlain a
    → IsPlain b
    → IsPlain c
    → join base (key_of a b c) ≢ []
join-key_of_ne_nil base a b c n p q r e =
    print_path_ne_nil (is_rooted base) (a ∷ resolve (is_rooted base) [] (components base)) b c
      (sym (join-key_of base a b c n p q r) ∙ e)
