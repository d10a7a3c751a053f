-- ===== src/Http/Server/Connections.antt =====
-- woody/http/http_server.cc: what `handler_map_` holds as connections come and go.
use woody.Shared.{
  ◌≡◌, refl, sym, ap, ◌∙◌, Bool, true, false, ◌&&◌, ◌||◌, Option, none, some, List, [], ◌∷◌,
  Bool-cases, inl, inr, if◌then◌else◌,
}
use woody.Shared.Text.{bytes_eq, bytes_eq→eq}
use woody.Base.StringMap.{Bytes, StringMap, find, insert}
use woody.Base.StringMap.Laws.{IsOrdered, insert-IsOrdered, find-insert}
use woody.Http.Server.{HttpServer, on_connection, on_disconnection, on_create_or_destroy_connection}
use woody.Http.Server.Routing.{or_else}
use mathlib.Core.Option.{get_or}

module _ {A : Type 0} where
  -- The server's connection callback, once for each connection that opens (`true`) or ends.
  unfoldable pub connections : List (Bool × Bytes) → HttpServer A → HttpServer A
  connections [] s = s
  connections ((connected, name) ∷ es) s =
      connections es (on_create_or_destroy_connection connected name s)

-- Whether a connection of that name has ever opened.
unfoldable pub has_opened : Bytes → List (Bool × Bytes) → Bool
has_opened k [] = false
has_opened k ((connected, name) ∷ es) = (connected && bytes_eq name k) || has_opened k es

abbrev pub own_name : Bytes → Bool → Option Bytes
own_name k b = if b then some k else none

or_else-none : (o : Option Bytes) → or_else o none ≡ o
or_else-none none = refl
or_else-none (some v) = refl

or_own :
    (k : Bytes) (o : Option Bytes) (b : Bool)
    → or_else (some (get_or o k)) (own_name k b) ≡ or_else o (some k)
or_own k none b = refl
or_own k (some v) b = refl

insert_self :
    (k name : Bytes) (m : StringMap) (b : Bool)
    → IsOrdered m
    → or_else (find k (insert name name m)) (own_name k b)
      ≡ or_else (find k m) (own_name k (bytes_eq name k || b))
insert_self k name m b o = rw (find-insert k name name m o) (elim (Bool-cases (bytes_eq name k)) [
  | inl e ↦ rw e (
      ap (λ (n : Bytes). or_else (some (get_or (find n m) n)) (own_name k b)) (bytes_eq→eq name k e)
      ∙ or_own k (find k m) b)
  | inr e ↦ rw e refl
])

module _ {A : Type 0} where
  find-connections :
      (es : List (Bool × Bytes)) (k : Bytes) (s : HttpServer A)
      → IsOrdered s.handler_map
      → find k (connections es s).handler_map
        ≡ or_else (find k s.handler_map) (own_name k (has_opened k es))
  unfolding connections has_opened on_create_or_destroy_connection on_connection on_disconnection
  find-connections [] k s o = sym (or_else-none (find k s.handler_map))
  find-connections ((true, name) ∷ es) k s o =
      find-connections es k (on_connection name s) (insert-IsOrdered name name s.handler_map o)
      ∙ insert_self k name s.handler_map (has_opened k es) o
  find-connections ((false, name) ∷ es) k s o = find-connections es k s o

  -- A server that starts with no handler holds, after any sequence of connections that open and
  -- end, the handler of that name for exactly the names of the connections that have ever opened:
  -- the end of a connection removes no handler.
  pub find-connections_new :
      (es : List (Bool × Bytes)) (k : Bytes) (s : HttpServer A)
      → s.handler_map ≡ []
      → find k (connections es s).handler_map ≡ (if has_opened k es then some k else none)
  find-connections_new es k s e =
      find-connections es k s (rw e tt)
      ∙ ap (λ (m : StringMap). or_else (find k m) (own_name k (has_opened k es))) e
      ∙ unfold find in refl
