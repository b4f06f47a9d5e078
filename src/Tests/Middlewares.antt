-- ===== src/Tests/Middlewares.antt =====
-- Requests that pass the middlewares.
use mathlib.Core.List.{reverse}
use Prim.Native.Nat.{max}
use traefik.Prelude.{
  ℕ, ◌≤◌, false, none, some, List, [], ◌∷◌, ◌++◌, Str, codes, take, ◌≡◌, ◌⊎◌, refl, ltb,
  if◌then◌else◌,
}
use traefik.Middlewares.{Request}
use traefik.Middlewares.Retry.{Response, is_network_error, FailedBetween, serve_lem}
use traefik.Middlewares.Recorder.{
  Action, a_write, a_header, a_flush, act_all, new_recorder, written, act_all_keeps_bytes,
}
use traefik.Middlewares.Stats.{
  Served, serve_all, new_stats_recorder, data_of, errors_of, serve_all-new,
}

abbrev a_request : Request
a_request = record {
  method = codes "GET";
  host = codes "foo.com";
  path = codes "/api/users";
  query = codes "";
  request_uri = codes "/api/users";
  header = [];
}

-- A handler that answers with the path.
abbrev echo : Request → Str
echo r = r.path

abbrev join_uri : Str → Str → Str
join_uri path query = path ++ query

abbrev prefixes : List Str
prefixes = codes "/api" ∷ codes "/a" ∷ []

-- Two attempts meet a bad gateway, and the third one none.
abbrev answers : ℕ → Response
answers n = record { code = if ltb n 3 then 502 else 200; header = []; body = [] }

serve_lem_example :
    (n : ℕ) × (traefik.Middlewares.Retry.serve 5 answers ≡ some (n, answers n))
    × (1 ≤ n)
    × (n ≤ max 5 1)
    × FailedBetween answers 1 n
    × ((is_network_error (answers n).code ≡ false) ⊎ (5 ≤ n))
serve_lem_example = serve_lem 5 answers

abbrev actions : List Action
actions = a_write (codes "ab") ∷ a_header 201 ∷ a_flush none ∷ a_write (codes "cd") ∷ []

act_all_keeps_bytes_example :
    let after = act_all actions (new_recorder (codes "x")) in
    after.sent ++ after.body ≡ codes "x" ++ written actions
unfolding new_recorder
act_all_keeps_bytes_example = act_all_keeps_bytes actions (new_recorder (codes "x")) refl tt

abbrev served : List Served
served =
    record { request = a_request; codes = 404 ∷ []; time = 1 }
    ∷ record { request = a_request; codes = []; time = 2 }
    ∷ record { request = a_request; codes = 500 ∷ []; time = 3 }
    ∷ []

abbrev status_text : ℕ → Str
status_text n = codes "status"

serve_all-new_example :
    data_of (serve_all status_text served (new_stats_recorder 1))
    ≡ take 1 (reverse (errors_of status_text served))
serve_all-new_example = serve_all-new status_text served 1

abbrev users : List (Str × Str)
users = (codes "me", codes "s1") ∷ (codes "me", codes "s2") ∷ []
