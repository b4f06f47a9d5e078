-- ===== src/Middlewares/Recorder.antt =====
-- middlewares/retry.go: the recorder that the retry handler hands to the next one.
use traefik.Prelude.{
  ℕ, Option, none, some, List, [], ◌∷◌, ◌++◌, Str, Dict, ◌≡◌, refl, sym, ap, ◌∙◌, append-nil,
  append_assoc,
}

-- The recorder, over the bytes that its response writer has been given.
pub record ResponseRecorder : Type 0 where
  pub code : ℕ
  pub header_map : Option (Dict (List Str))
  pub body : Str
  pub sent : Str
  pub failure : Option Str

unfoldable pub new_recorder : Str → ResponseRecorder
new_recorder sent = record {
  code = 200;
  header_map = some [];
  body = [];
  sent = sent;
  failure = none;
}

-- ResponseRecorder.Header: a map is made where there is none.
unfoldable pub header : ResponseRecorder → ResponseRecorder × Dict (List Str)
header r = elim r.header_map [ some m ↦ (r, m) | none ↦ (record r { header_map = some [] }, []) ]

-- ResponseRecorder.Write: the error of a failed flush is returned, and nothing written.
unfoldable pub write : Str → ResponseRecorder → ResponseRecorder × Option Str
write buf r = elim r.failure [
  | some e ↦ (r, some e)
  | none ↦ (record r { body = r.body ++ buf }, none)
]

-- ResponseRecorder.WriteHeader
unfoldable pub write_header : ℕ → ResponseRecorder → ResponseRecorder
write_header code r = record r { code = code }

-- ResponseRecorder.Flush. `outcome` is the error of the response writer, if it returns one; it is
-- then taken to have written nothing.
unfoldable pub flush : Option Str → ResponseRecorder → ResponseRecorder
flush outcome r = elim outcome [
  | none ↦ record r { sent = r.sent ++ r.body; body = [] }
  | some e ↦ record r { failure = some e; body = [] }
]

-- What a handler does with the recorder.
pub data Action : Type 0 where
  a_write : Str → Action
  a_header : ℕ → Action
  -- The flush, and the error of the response writer.
  a_flush : Option Str → Action

unfoldable pub act : Action → ResponseRecorder → ResponseRecorder
unfolding write write_header flush
act (a_write buf) r = (write buf r).0
act (a_header code) r = write_header code r
act (a_flush outcome) r = flush outcome r

unfoldable pub act_all : List Action → ResponseRecorder → ResponseRecorder
act_all [] r = r
act_all (a ∷ as') r = act_all as' (act a r)

-- All that was written.
abbrev pub written : List Action → Str
written [] = []
written (a_write buf ∷ as') = buf ++ written as'
written (_ ∷ as') = written as'

-- No flush fails.
abbrev pub FlushesFine : List Action → Type 0
FlushesFine [] = Unit
FlushesFine (a_flush (some e) ∷ as') = ⊥
FlushesFine (_ ∷ as') = FlushesFine as'

act-write :
    (buf : Str) (r : ResponseRecorder)
    → r.failure ≡ none
    → act (a_write buf) r ≡ record r { body = r.body ++ buf }
unfolding act
act-write buf r h = rw (h, write)

act-header : (code : ℕ) (r : ResponseRecorder) → act (a_header code) r ≡ record r { code = code }
unfolding act
act-header code r = refl

act-flush :
    (r : ResponseRecorder) → act (a_flush none) r ≡ record r { sent = r.sent ++ r.body; body = [] }
unfolding act
act-flush r = refl

-- Where no flush fails, the bytes that reached the client and those that wait in the body are
-- together what they were before, followed by all that was written, in order.
pub act_all_keeps_bytes :
    (as' : List Action) (r : ResponseRecorder)
    → r.failure ≡ none
    → FlushesFine as'
    → let after = act_all as' r in after.sent ++ after.body ≡ (r.sent ++ r.body) ++ written as'
unfolding act_all
act_all_keeps_bytes [] r h k = sym (append-nil _)
act_all_keeps_bytes (a_write buf ∷ as') r h k =
    rw (act-write buf r h, act_all)
      (act_all_keeps_bytes as' (record r { body = r.body ++ buf }) h k ∙ simp append_assoc)
act_all_keeps_bytes (a_header code ∷ as') r h k =
    rw (act-header code r, act_all) (act_all_keeps_bytes as' (record r { code = code }) h k)
act_all_keeps_bytes (a_flush none ∷ as') r h k =
    rw (act-flush r, act_all)
      (act_all_keeps_bytes as' (record r { sent = r.sent ++ r.body; body = [] }) h k
        ∙ ap (λ t. t ++ written as') (append-nil (r.sent ++ r.body)))
act_all_keeps_bytes (a_flush (some e) ∷ as') r h k = absurd k
