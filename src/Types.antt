-- ===== src/Types.antt =====
-- types/types.go: the dynamic configuration that providers send, and the options of the static one.
-- A nil pointer, slice or map that the program tests for is `none`.
pub mod Constraint
pub mod Balancing
use traefik.Prelude.{Bool, Option, List, Str, Dict, ℤ}
use traefik.Text.{trim_space, to_lower}

pub record MaxConn : Type 0 where
  pub amount : ℤ
  pub extractor_func : Str

pub record LoadBalancer : Type 0 where
  pub method : Str
  pub sticky : Bool

pub record CircuitBreaker : Type 0 where
  pub expression : Str

pub record HealthCheck : Type 0 where
  pub path : Str
  pub interval : Str

pub record Server : Type 0 where
  pub url : Str
  pub weight : ℤ

pub record Backend : Type 0 where
  pub servers : Dict Server
  pub circuit_breaker : Option CircuitBreaker
  pub load_balancer : Option LoadBalancer
  pub max_conn : Option MaxConn
  pub health_check : Option HealthCheck

pub record Route : Type 0 where
  pub rule : Str

pub record Frontend : Type 0 where
  pub entry_points : List Str
  pub backend : Str
  pub routes : Dict Route
  pub pass_host_header : Bool
  pub priority : ℤ
  pub basic_auth : List Str

pub record Configuration : Type 0 where
  pub backends : Option (Dict Backend)
  pub frontends : Option (Dict Frontend)

pub record ConfigMessage : Type 0 where
  pub provider_name : Str
  pub configuration : Option Configuration

pub record Basic : Type 0 where
  pub users : List Str
  pub users_file : Str

pub record Digest : Type 0 where
  pub users : List Str
  pub users_file : Str

pub record Auth : Type 0 where
  pub basic : Option Basic
  pub digest : Option Digest
  pub header_field : Str

unfoldable pub canonical_domain : Str → Str
canonical_domain domain = to_lower (trim_space domain)
