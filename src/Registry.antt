-- ===== src/Registry.antt =====
-- iaiops_energy/__init__.py `_register_protocols`, over the base package's configuration.
pub mod Registered
mod Tests
use industrial_aiops_energy.Prelude.{
  ℕ, ◌==◌, Bool, true, false, ◌||◌, ◌&&◌, not, Option, none, some, List, [], ◌∷◌, ◌++◌, filter,
  Text, codes, text_eq, if◌then◌else◌,
}

-- The base configuration: SUPPORTED_PROTOCOLS, and _DEFAULT_PORTS as a dict whose keys stand once.
pub record Config : Type 0 where
  pub supported_protocols : List Text
  pub default_ports : List (Text × ℕ)

-- __version__, for the version that the metadata of the installed package give, if it is installed
unfoldable pub package_version : Option Text → Text
package_version (some version) = version
package_version none = codes "0.0.0+unknown"

-- _ENERGY_PROTOCOLS
unfoldable pub energy_protocols : List Text
unfolding codes
energy_protocols = codes "iec104" ∷ codes "dnp3" ∷ codes "iec61850" ∷ []

-- _ENERGY_DEFAULT_PORTS
unfoldable pub energy_default_ports : List (Text × ℕ)
unfolding codes
energy_default_ports = (codes "iec104", 2404) ∷ (codes "dnp3", 20000) ∷ (codes "iec61850", 102) ∷ []

-- p in protocols
unfoldable pub is_in : Text → List Text → Bool
is_in p [] = false
is_in p (q ∷ qs) = text_eq q p || is_in p qs

-- tuple(p for p in ps if p not in protocols)
unfoldable pub missing : List Text → List Text → List Text
missing ps protocols = filter (λ p. not (is_in p protocols)) ps

-- d.get(key)
unfoldable pub port_of : Text → List (Text × ℕ) → Option ℕ
port_of key [] = none
port_of key ((k, n) ∷ rest) =
    let later = port_of key rest in if text_eq k key then some n else later

-- d[key] = n
unfoldable pub set_port : Text → ℕ → List (Text × ℕ) → List (Text × ℕ)
set_port key n [] = (key, n) ∷ []
set_port key n ((k, m) ∷ rest) =
    let later = set_port key n rest in if text_eq k key then (k, n) ∷ rest else (k, m) ∷ later

abbrev pub is_port : Option ℕ → ℕ → Bool
is_port none n = false
is_port (some m) n = m == n

-- items.items() <= ports.items()
unfoldable pub are_ports : List (Text × ℕ) → List (Text × ℕ) → Bool
are_ports [] ports = true
are_ports ((k, n) ∷ rest) ports = is_port (port_of k ports) n && are_ports rest ports

-- {**ports, **items}
unfoldable pub merge_ports : List (Text × ℕ) → List (Text × ℕ) → List (Text × ℕ)
merge_ports ports [] = ports
merge_ports ports ((k, n) ∷ rest) = merge_ports (set_port k n ports) rest

-- _register_protocols
unfoldable pub register_protocols : Config → Config
register_protocols c = record {
  supported_protocols = c.supported_protocols ++ missing energy_protocols c.supported_protocols;
  default_ports =
      if are_ports energy_default_ports c.default_ports
      then c.default_ports
      else merge_ports c.default_ports energy_default_ports;
}
