-- ===== src/Middlewares.antt =====
-- middlewares: the handlers that a request passes on its way to a backend.
pub mod Paths
pub mod Strip
pub mod Retry
pub mod Recorder
pub mod Stats
pub mod Auth
use traefik.Prelude.{List, Str, Dict}

-- What the middlewares read and write of an http.Request. `query` stands for the parts of the URL
-- besides its path.
pub record Request : Type 0 where
  pub method : Str
  pub host : Str
  pub path : Str
  pub query : Str
  pub request_uri : Str
  pub header : Dict (List Str)
