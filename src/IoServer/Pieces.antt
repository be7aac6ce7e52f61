-- ===== src/IoServer/Pieces.antt =====
-- The pieces in which a request reaches the handler and a response leaves it.
use prog_playground.Prelude.{◌≡◌, ◌≢◌, ◌∙◌, ap, refl, sym, some, List, [], ◌∷◌, ◌++◌, map, length}
use mathlib.Core.List.{append_assoc, append-nil}
use prog_playground.IoServer.{Text, got, would_block, peer_closed, Sent, send_loop}
use prog_playground.IoServer.Db.{DbManager}
use prog_playground.IoServer.Request.{
  Effect, cached, inserted, sent, closed, escaped, aborted, complete, Backend, JsonLibrary,
  read_request, process_request, sends, finish_request,
}
use prog_playground.IoServer.Benchmark.{read_response}
use prog_playground.IoServer.Stored.{cache_of, table_of}
use prog_playground.IoServer.Sending.{joined, Takes, send_loop-joined}

pub read_request-got :
    (ts : List Text) (bytes : Text)
    → read_request (map got ts ++ would_block ∷ []) bytes ≡ complete (bytes ++ joined ts)
unfolding read_request
read_request-got [] bytes = ap complete (sym (append-nil bytes))
read_request-got (t ∷ ts) bytes =
    read_request-got ts (bytes ++ t) ∙ ap complete (append_assoc bytes t (joined ts))

pub read_response-got :
    (ts : List Text) (bytes : Text)
    → read_response (map got ts ++ peer_closed ∷ []) bytes ≡ some (bytes ++ joined ts)
unfolding read_response
read_response-got [] bytes = ap some (sym (append-nil bytes))
read_response-got (t ∷ ts) bytes =
    read_response-got ts (bytes ++ t) ∙ ap some (append_assoc bytes t (joined ts))

-- The texts that an effect sends.
abbrev pub sent_pieces : List Effect → List Text
sent_pieces [] = []
sent_pieces (sent t ∷ es) = t ∷ sent_pieces es
sent_pieces (cached k v ∷ es) = sent_pieces es
sent_pieces (inserted sql ∷ es) = sent_pieces es
sent_pieces (closed ∷ es) = sent_pieces es
sent_pieces (escaped ∷ es) = sent_pieces es
sent_pieces (aborted ∷ es) = sent_pieces es

-- What the handler leaves behind the effects on the databases.
pub record Tail (ts : List Text) : Type 0 where
  pub pieces : sent_pieces (sends ts ++ closed ∷ []) ≡ ts
  pub table : table_of (sends ts ++ closed ∷ []) ≡ []
  pub cache : cache_of (sends ts ++ closed ∷ []) ≡ []

pub sends-Tail : (ts : List Text) → Tail ts
sends-Tail [] = record { pieces = refl; table = refl; cache = refl }
sends-Tail (t ∷ ts) =
    let rest = sends-Tail ts in
    record { pieces = ap (◌∷◌ t) rest.pieces; table = rest.table; cache = rest.cache }

pub finish_request-complete :
    (backend : Backend) (db : DbManager) (lib : JsonLibrary) (answers : List Sent) (text : Text)
    → text ≢ []
    → finish_request backend db lib answers (complete text)
      ≡ process_request backend db lib answers text
unfolding finish_request
finish_request-complete backend db lib answers [] h = absurd (h refl)
finish_request-complete backend db lib answers (b ∷ bs) h = refl

-- A complete sending leaves the whole text with the peer.
pub all_sent :
    (answers : List Sent) (text : Text)
    → Takes answers (length text)
    → joined (send_loop answers text).0 ≡ text
all_sent answers text h =
    let (same, left) = send_loop-joined answers text in
    sym (append-nil (joined (send_loop answers text).0))
    ∙ ap (◌++◌ (joined (send_loop answers text).0)) (sym (left h))
    ∙ same
