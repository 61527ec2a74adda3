-- ===== src/Registry/Registered.antt =====
-- The registration of iaiops_energy/__init__.py registers, and a second one changes nothing.
use mathlib.Core.Path.{subst, ap₂}
use industrial_aiops_energy.Prelude.{
  append_nil, ℕ, ◌≡◌, refl, sym, ap, ◌∙◌, arith, inl, inr, Bool, true, false, not, ◌||◌, some, List,
  [], ◌∷◌, ◌++◌, filter, All, Text, text_eq, text_eq_iff, codes, Bool-cases, Option-cases,
}
use industrial_aiops_energy.Registry.{
  Config, energy_protocols, energy_default_ports, is_in, missing, port_of, set_port, are_ports,
  merge_ports, register_protocols,
}

is_in-append : (p : Text) (xs ys : List Text) → is_in p (xs ++ ys) ≡ (is_in p xs || is_in p ys)
unfolding is_in
is_in-append p [] ys = refl
is_in-append p (x ∷ xs) ys = ground (arith, is_in-append p xs ys)

-- What a filter left out is what fails its test.
is_in-filter :
    (test : Text → Bool) (p : Text) (ps : List Text)
    → is_in p ps ≡ true
    → test p ≡ true
    → is_in p (filter test ps) ≡ true
unfolding is_in
is_in-filter test p [] h t = h
is_in-filter test p (q ∷ ps) h t = elim (Bool-cases (text_eq q p)) [
  | inl same ↦
      let e : q ≡ p = (text_eq_iff q p).0 same in
      let passes : test q ≡ true = subst (λ x. test x ≡ true) (sym e) t in ground arith
  | inr other ↦ ground (arith, is_in-filter test p ps)
]

is_in-missing :
    (p : Text) (ps protocols : List Text)
    → is_in p ps ≡ true
    → is_in p (protocols ++ missing ps protocols) ≡ true
unfolding missing
is_in-missing p ps protocols h = elim (Bool-cases (is_in p protocols)) [
  | inl there ↦ ground (arith, is_in-append p protocols (missing ps protocols))
  | inr new ↦
      let kept = is_in-filter (λ q. not (is_in q protocols)) p ps h (ground arith) in
      ground (arith, is_in-append p protocols (missing ps protocols))
]

filter_nothing :
    (test : Text → Bool) (ps : List Text) → All (λ p. test p ≡ false) ps → filter test ps ≡ []
filter_nothing test [] h = refl
filter_nothing test (p ∷ ps) h = rw h.0 (filter_nothing test ps h.1)

port_of-set_port : (k : Text) (n : ℕ) (d : List (Text × ℕ)) → port_of k (set_port k n d) ≡ some n
unfolding port_of set_port
port_of-set_port k n [] = ground (arith, text_eq_iff k k)
port_of-set_port k n ((j, m) ∷ rest) = ground (arith, port_of-set_port k n rest)

port_of-set_port_other :
    (k j : Text) (n : ℕ) (d : List (Text × ℕ))
    → text_eq j k ≡ false
    → port_of k (set_port j n d) ≡ port_of k d
unfolding port_of set_port
port_of-set_port_other k j n [] h = ground arith
port_of-set_port_other k j n ((i, m) ∷ rest) h =
    ground (
      arith,
      port_of-set_port_other k j n rest h,
      text_eq_iff i j,
      text_eq_iff i k,
      text_eq_iff j k,
    )

-- Each protocol of the edition is supported, and has its port.
abbrev pub Registered : Config → Type 0
Registered c =
    All (λ p. is_in p c.supported_protocols ≡ true) energy_protocols
    × All (λ entry. port_of entry.0 c.default_ports ≡ some entry.1) energy_default_ports

merged_ports :
    (d : List (Text × ℕ))
    → All
        (λ entry. port_of entry.0 (merge_ports d energy_default_ports) ≡ some entry.1)
        energy_default_ports
unfolding merge_ports energy_default_ports codes text_eq
merged_ports d = (
  port_of-set_port_other _ _ _ _ refl
      ∙ (port_of-set_port_other _ _ _ _ refl ∙ port_of-set_port _ _ _),
  (port_of-set_port_other _ _ _ _ refl ∙ port_of-set_port _ _ _, (port_of-set_port _ _ _, tt)),
)

are_ports-All :
    (items ports : List (Text × ℕ))
    → are_ports items ports ≡ true
    → All (λ entry. port_of entry.0 ports ≡ some entry.1) items
unfolding are_ports
are_ports-All [] ports h = tt
are_ports-All ((k, n) ∷ rest) ports h = elim (Option-cases (port_of k ports)) [
  | inl absent ↦ absurd (ground arith)
  | inr (m, e) ↦ (ground arith, are_ports-All rest ports (ground arith))
]

All-are_ports :
    (items ports : List (Text × ℕ))
    → All (λ entry. port_of entry.0 ports ≡ some entry.1) items
    → are_ports items ports ≡ true
unfolding are_ports
All-are_ports [] ports h = refl
All-are_ports ((k, n) ∷ rest) ports h =
    let here = h.0 in let later = All-are_ports rest ports h.1 in ground arith

-- A configuration that has everything is left as it is.
register_protocols-Registered : (c : Config) → Registered c → register_protocols c ≡ c
unfolding register_protocols missing energy_protocols
register_protocols-Registered c (supported, ports) =
    let nothing =
      filter_nothing (λ p. not (is_in p c.supported_protocols)) energy_protocols
        (ground arith, (ground arith, (ground arith, tt))) in
    ap₂ (λ a b. record { supported_protocols = a; default_ports = b })
      (ap (λ r. c.supported_protocols ++ r) nothing ∙ append_nil c.supported_protocols)
      (let have = All-are_ports energy_default_ports c.default_ports ports in ground arith)

-- A protocol that the edition does not have.
abbrev pub Foreign : Text → Type 0
Foreign k = All (λ p. text_eq p k ≡ false) energy_protocols

merge-Foreign :
    (k : Text) (d : List (Text × ℕ))
    → Foreign k
    → port_of k (merge_ports d energy_default_ports) ≡ port_of k d
unfolding merge_ports energy_default_ports energy_protocols
merge-Foreign k d (a, (b, (c, _))) =
    port_of-set_port_other k _ _ _ c
    ∙ (port_of-set_port_other k _ _ _ b ∙ port_of-set_port_other k _ _ _ a)

registered_protocols :
    (d : List Text) → All (λ p. is_in p (d ++ missing energy_protocols d) ≡ true) energy_protocols
unfolding energy_protocols is_in text_eq
registered_protocols d = (
  is_in-missing _ energy_protocols d refl,
  (is_in-missing _ energy_protocols d refl, (is_in-missing _ energy_protocols d refl, tt)),
)

-- The ports behind the registration.
registered_ports :
    (c : Config)
    → All
        (λ entry. port_of entry.0 (register_protocols c).default_ports ≡ some entry.1)
        energy_default_ports
unfolding register_protocols
registered_ports c = elim (Bool-cases (are_ports energy_default_ports c.default_ports)) [
  | inl there ↦ rw there (are_ports-All energy_default_ports c.default_ports there)
  | inr absent ↦ rw absent (merged_ports c.default_ports)
]

kept_ports :
    (c : Config) (k : Text)
    → Foreign k
    → port_of k (register_protocols c).default_ports ≡ port_of k c.default_ports
unfolding register_protocols
kept_ports c k foreign = elim (Bool-cases (are_ports energy_default_ports c.default_ports)) [
  | inl there ↦ rw there refl
  | inr absent ↦ rw absent (merge-Foreign k c.default_ports foreign)
]

-- After the registration the three protocols are supported and have their default ports, the port
-- of any other protocol is what it was, and a second registration changes nothing.
pub register_protocols_lem :
    (c : Config)
    → Registered (register_protocols c)
      × ((k : Text)
          → Foreign k
          → port_of k (register_protocols c).default_ports ≡ port_of k c.default_ports)
      × (register_protocols (register_protocols c) ≡ register_protocols c)
unfolding register_protocols
register_protocols_lem c =
    let done : Registered (register_protocols c) =
      (registered_protocols c.supported_protocols, registered_ports c) in
    (done, kept_ports c, register_protocols-Registered (register_protocols c) done)
