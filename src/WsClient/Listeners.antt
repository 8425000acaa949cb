-- ===== src/WsClient/Listeners.antt =====
-- The listeners of `WebSocketClient` (web/assets/js/websocket.js): a `Map` from event names to lists
-- of callbacks, here numbers. A callback that throws is caught, and one that is called does not change
-- the listeners in this model.
use ax_ui.Common.{
  ℕ, suc, ◌+◌, ◌-◌, ◌*◌, length, erase_idx, ◌≡◌, refl, Bool, true, false, not, ◌&&◌, ◌||◌, String,
  List, [], ◌∷◌, ◌++◌, Option, none, some, eqb, ltb, ◌==◌, if◌then◌else◌, arith, eq_iff, any,
}
use ax_ui.Common.Int.{ℤ, pos, negsuc}
use ax_ui.Js.{Value, undefined, arr, obj, str, property}

abbrev pub Listeners : Type 0
Listeners = List (String × List ℕ)

abbrev pub callbacks : String → Listeners → List ℕ
callbacks event [] = []
callbacks event ((e, cs) ∷ m) = if e == event then cs else callbacks event m

abbrev pub has_event : String → Listeners → Bool
has_event event [] = false
has_event event ((e, cs) ∷ m) = e == event || has_event event m

-- `listeners.set(event, cs)`
abbrev set_callbacks : String → List ℕ → Listeners → Listeners
set_callbacks event cs [] = (event, cs) ∷ []
set_callbacks event cs ((e, ds) ∷ m) =
    if e == event then (event, cs) ∷ m else (e, ds) ∷ set_callbacks event cs m

abbrev pub includes : ℕ → List ℕ → Bool
includes c cs = any (λ d. eqb d c) cs

-- `callbacks.indexOf(c)`
abbrev step_back : ℤ → ℤ
step_back (pos n) = pos (suc n)
step_back (negsuc n) = negsuc n

abbrev index_of : ℕ → List ℕ → ℤ
index_of c [] = negsuc 0
index_of c (d ∷ ds) = let rest = index_of c ds in if eqb d c then pos 0 else step_back rest

-- `index > -1`
abbrev is_index : ℤ → Bool
is_index (pos n) = true
is_index (negsuc n) = false

-- `callbacks.splice(i, 1)`: a negative index counts from the end.
abbrev splice_one : ℤ → List ℕ → List ℕ
splice_one (pos n) cs = erase_idx cs n
splice_one (negsuc n) cs = erase_idx cs (length cs - (n + 1))

-- `on`: an empty list is set first where the event has none.
unfoldable pub on : String → ℕ → Listeners → Listeners
on event c m =
    let m' = if has_event event m then m else set_callbacks event [] m in
    let cs = callbacks event m' in
    if includes c cs then m' else set_callbacks event (cs ++ c ∷ []) m'

unfoldable pub off : String → ℕ → Listeners → Listeners
off event c m =
    if not (has_event event m)
    then m
    else let cs = callbacks event m in
      let index = index_of c cs in
      if is_index index then set_callbacks event (splice_one index cs) m else m

-- `emit`: the callbacks that are called, in order.
unfoldable pub emit : String → Listeners → List ℕ
emit event m = if has_event event m then callbacks event m else []

abbrev pub max_message_size : ℕ
max_message_size = 10 * 1024 * 1024

-- What `onmessage` does with the data: close the socket, drop it, or call the callbacks.
pub data Handled : Type 0 where
  close_socket dropped : Handled
  called : List ℕ → Handled

abbrev is_object : Value → Bool
is_object (obj ps) = true
is_object (arr vs) = true
is_object _ = false

abbrev type_of : Value → Value
type_of (obj ps) = property "type" ps
type_of _ = undefined

-- `emit(type)` for a type that is no text finds no listener: the names are texts.
abbrev emit_type : Value → Listeners → List ℕ
emit_type (str t) m = emit t m
emit_type _ m = []

-- `handleMessage`
unfoldable pub handle_message : Value → Listeners → List ℕ
unfolding emit
handle_message message m = emit_type (type_of message) m ++ emit "message" m

-- `onmessage`, given the length of the data and what `JSON.parse` makes of it, if it is JSON.
unfoldable pub on_message : ℕ → Option Value → Listeners → Handled
unfolding handle_message
on_message size parsed m = if ltb max_message_size size then close_socket else elim parsed [
  | none ↦ dropped
  | some v ↦ if is_object v then called (handle_message v m) else dropped
]

callbacks-set :
    (e f : String) (cs : List ℕ) (m : Listeners)
    → callbacks f (set_callbacks e cs m) ≡ (if e == f then cs else callbacks f m)
callbacks-set e f cs [] = refl
callbacks-set e f cs ((g, ds) ∷ m) =
    ground (arith, eq_iff e f, eq_iff g e, eq_iff g f, callbacks-set e f cs m)

has_event-set :
    (e f : String) (cs : List ℕ) (m : Listeners)
    → has_event f (set_callbacks e cs m) ≡ (e == f || has_event f m)
has_event-set e f cs [] = refl
has_event-set e f cs ((g, ds) ∷ m) =
    ground (arith, eq_iff e f, eq_iff g e, eq_iff g f, has_event-set e f cs m)

no_callbacks : (e : String) (m : Listeners) → has_event e m ≡ false → callbacks e m ≡ []
no_callbacks e [] h = refl
no_callbacks e ((g, ds) ∷ m) h = ground (arith, no_callbacks e m)

emit-callbacks : (e : String) (m : Listeners) → emit e m ≡ callbacks e m
unfolding emit
emit-callbacks e m = ground (arith, no_callbacks e m)

abbrev with_event : String → Listeners → Listeners
with_event e m = if has_event e m then m else set_callbacks e [] m

callbacks-with_event : (e f : String) (m : Listeners) → callbacks f (with_event e m) ≡ callbacks f m
callbacks-with_event e f m = ground (arith, eq_iff e f, no_callbacks e m, callbacks-set e f [] m)

callbacks-on :
    (e f : String) (c : ℕ) (m : Listeners)
    → callbacks f (on e c m) ≡ (
        if (e == f) && not (includes c (callbacks e m))
        then callbacks e m ++ c ∷ []
        else callbacks f m)
unfolding on
callbacks-on e f c m = rw (callbacks-with_event e e m) (
    ground (
      arith,
      callbacks-with_event e f m,
      callbacks-set e f (callbacks e m ++ c ∷ []) (with_event e m),
    ))

-- A list without the first occurrence of an element.
abbrev without : ℕ → List ℕ → List ℕ
without c [] = []
without c (d ∷ ds) = if eqb d c then ds else d ∷ without c ds

splice-step_back :
    (i : ℤ) (d : ℕ) (ds : List ℕ)
    → is_index i ≡ true
    → splice_one (step_back i) (d ∷ ds) ≡ d ∷ splice_one i ds
splice-step_back (pos n) d ds h = refl
splice-step_back (negsuc n) d ds h = cc

is_index-step_back : (i : ℤ) → is_index (step_back i) ≡ is_index i
is_index-step_back (pos n) = refl
is_index-step_back (negsuc n) = refl

-- Splicing at the index of an element, if it has one, removes its first occurrence.
splice-index_of :
    (c : ℕ) (cs : List ℕ)
    → (if is_index (index_of c cs) then splice_one (index_of c cs) cs else cs) ≡ without c cs
splice-index_of c [] = refl
splice-index_of c (d ∷ ds) = ground (
  arith,
  is_index-step_back (index_of c ds),
  splice-step_back (index_of c ds) d ds,
  splice-index_of c ds,
)

callbacks-off :
    (e f : String) (c : ℕ) (m : Listeners)
    → callbacks f (off e c m) ≡ (if e == f then without c (callbacks e m) else callbacks f m)
unfolding off
callbacks-off e f c m = ground (
  arith,
  eq_iff e f,
  no_callbacks e m,
  splice-index_of c (callbacks e m),
  callbacks-set e f (splice_one (index_of c (callbacks e m)) (callbacks e m)) m,
)

-- After `on`, an event calls the callbacks that it called before and the new one last, if that was not
-- among them; any other event calls what it called before.
pub emit-on :
    (e f : String) (c : ℕ) (m : Listeners)
    → emit f (on e c m)
      ≡ (if (e == f) && not (includes c (emit e m)) then emit e m ++ c ∷ [] else emit f m)
emit-on e f c m =
    rw (emit-callbacks f (on e c m), emit-callbacks e m, emit-callbacks f m) (callbacks-on e f c m)

-- After `off`, an event calls what it called before without the first such callback, which is just
-- what it called before where the callback is not among them; any other event calls what it called
-- before.
pub emit-off :
    (e f : String) (c : ℕ) (m : Listeners)
    → emit f (off e c m) ≡ (if e == f then without c (emit e m) else emit f m)
emit-off e f c m =
    rw (emit-callbacks f (off e c m), emit-callbacks e m, emit-callbacks f m)
      (callbacks-off e f c m)
