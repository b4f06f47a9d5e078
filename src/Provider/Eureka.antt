-- ===== src/Provider/Eureka.antt =====
-- provider/eureka/eureka.go: what the provider reads of an instance.
use traefik.Prelude.{Bool, ◌++◌, Str, codes, Dict, lookup, if◌then◌else◌, ℤ}
use mathlib.Core.Option.{get_or}
use traefik.Provider.{replace}

-- eureka.InstanceInfo, as far as it is read.
pub record InstanceInfo : Type 0 where
  pub ip_addr : Str
  pub port : ℤ
  pub secure_port : ℤ
  pub secure_port_enabled : Bool
  pub metadata : Dict Str

-- `itoa` is strconv.Itoa.
unfoldable pub get_port : (ℤ → Str) → InstanceInfo → Str
get_port itoa instance_info =
    if instance_info.secure_port_enabled
    then itoa instance_info.secure_port
    else itoa instance_info.port

unfoldable pub get_protocol : InstanceInfo → Str
get_protocol instance_info =
    if instance_info.secure_port_enabled then codes "https" else codes "http"

unfoldable pub get_weight : InstanceInfo → Str
get_weight instance_info =
    get_or (lookup (codes "traefik.weight") instance_info.metadata) (codes "0")

unfoldable pub get_instance_id : (ℤ → Str) → InstanceInfo → Str
get_instance_id itoa instance_info =
    get_or (lookup (codes "traefik.backend.id") instance_info.metadata)
      (replace b'.' b'-' instance_info.ip_addr ++ codes "-" ++ get_port itoa instance_info)
