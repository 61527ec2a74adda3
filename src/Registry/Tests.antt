-- ===== src/Registry/Tests.antt =====
-- Registering with a configuration that knows one of the protocols, at another port.
use industrial_aiops_energy.Prelude.{◌≡◌, refl, [], ◌∷◌, Text, codes, text_eq}
use industrial_aiops_energy.Registry.{
  Config, energy_protocols, energy_default_ports, is_in, missing, port_of, set_port, are_ports,
  merge_ports, register_protocols,
}
use industrial_aiops_energy.Registry.Registered.{Registered, Foreign, register_protocols_lem}

abbrev config : Config
unfolding codes
config = record {
  supported_protocols = codes "modbus" ∷ codes "dnp3" ∷ [];
  default_ports = (codes "modbus", 502) ∷ (codes "dnp3", 1) ∷ [];
}

register_protocols_lem_example :
    Registered (register_protocols config)
    × ((k : Text)
        → Foreign k
        → port_of k (register_protocols config).default_ports ≡ port_of k config.default_ports)
    × (register_protocols (register_protocols config) ≡ register_protocols config)
register_protocols_lem_example = register_protocols_lem config

registered_config : register_protocols config ≡ record {
  supported_protocols = codes "modbus" ∷ codes "dnp3" ∷ codes "iec104" ∷ codes "iec61850" ∷ [];
  default_ports =
      (codes "modbus", 502)
      ∷ (codes "dnp3", 20000)
      ∷ (codes "iec104", 2404)
      ∷ (codes "iec61850", 102)
      ∷ [];
}
unfolding register_protocols energy_protocols energy_default_ports missing is_in port_of set_port
    are_ports merge_ports text_eq config
registered_config = refl
