-- ===== src/Transport/WebSocket/Listener.antt =====
-- `WebSocketListener`: handlers of upgraded requests offer their connections on a channel of 100,
-- `Accept` takes them from it, `Close` closes the other channel. A select with two ready cases may
-- take either. Connections are numbered.
pub mod Sound
use hydravpn.Base.{
  ◌≢◌, ◌⊎◌, inl, inr, ℕ, ◌+◌, ◌≤◌, ◌<◌, ◌≡◌, refl, sym, ap, ◌∙◌, subst, Bool, true, false,
  Bool-cases, List, [], ◌∷◌, ◌++◌, append_assoc, arith, ltb, ◌==◌, ==_iff, length, length-append,
  Option, some, none, some_same, Result, ok, err, if◌then◌else◌,
}

-- `handlers` wait in their select. What has happened to the connections is kept beside the fields:
-- those upgraded, those sent on the channel, those that `Accept` returned, those closed by their
-- handler.
pub record WebSocketListener : Type 0 where
  pub handlers : List ℕ
  pub conn_chan : List ℕ
  pub closed : Bool
  pub upgraded : List ℕ
  pub sent : List ℕ
  pub accepted : List ℕ
  pub dropped : List ℕ

abbrev pub capacity : ℕ
capacity = 100

unfoldable pub remove_one : List ℕ → ℕ → List ℕ
remove_one [] c = []
remove_one (d ∷ rest) c = let others = remove_one rest c in if d == c then rest else d ∷ others

-- A select of two cases, none where a case is not ready. Where both are, `first` says which is taken.
unfoldable pub select : {A : Type 0} → (first : Bool) → Option A → Option A → Option A
select true (some a) other = some a
select true none other = other
select false other (some a) = some a
select false other none = other

-- The two cases of a handler that holds a connection.
unfoldable pub send_conn : WebSocketListener → ℕ → Option WebSocketListener
send_conn l c =
    if ltb (length l.conn_chan) capacity
    then some (record l {
      handlers = remove_one l.handlers c;
      conn_chan = l.conn_chan ++ c ∷ [];
      sent = l.sent ++ c ∷ [];
    })
    else none

unfoldable pub drop_conn : WebSocketListener → ℕ → Option WebSocketListener
drop_conn l c =
    if l.closed
    then some (record l { handlers = remove_one l.handlers c; dropped = c ∷ l.dropped })
    else none

-- The handler of a request, after the upgrade. None waits.
unfoldable pub handle : WebSocketListener → ℕ → Bool → Option WebSocketListener
handle l c first = select first (send_conn l c) (drop_conn l c)

unfoldable pub take_conn : WebSocketListener → List ℕ → Option (WebSocketListener × Result ℕ)
take_conn l [] = none
take_conn l (c ∷ rest) = some (record l { conn_chan = rest; accepted = l.accepted ++ c ∷ [] }, ok c)

unfoldable pub refuse_closed : WebSocketListener → Option (WebSocketListener × Result ℕ)
refuse_closed l = if l.closed then some (l, err "listener closed") else none

unfoldable pub accept : WebSocketListener → Bool → Option (WebSocketListener × Result ℕ)
accept l first = select first (take_conn l l.conn_chan) (refuse_closed l)

-- A second `Close` leaves the channel as the first did; `closing` is what the network's listener answers.
unfoldable pub close : WebSocketListener → Result ℕ → WebSocketListener × Result ℕ
close l closing = (record l { closed = true }, closing)

-- How often a connection stands in a list.
abbrev pub times : List ℕ → ℕ → ℕ
times [] c = 0
times (d ∷ rest) c = (if d == c then 1 else 0) + times rest c

pub data Step (l m : WebSocketListener) : Type 0 where
  upgrades :
      (c : ℕ) → m ≡ record l { handlers = c ∷ l.handlers; upgraded = c ∷ l.upgraded } → Step l m
  handles : (c : ℕ) (first : Bool) → 1 ≤ times l.handlers c → handle l c first ≡ some m → Step l m
  accepts : (first : Bool) {answer : Result ℕ} → accept l first ≡ some (m, answer) → Step l m
  closes : (closing : Result ℕ) → (close l closing).0 ≡ m → Step l m

pub data Reach (l : WebSocketListener) : WebSocketListener → Type 0 where
  here : Reach l l
  next : {m n : WebSocketListener} → Reach l m → Step m n → Reach l n

abbrev pub new_listener : WebSocketListener
new_listener = record {
  handlers = [];
  conn_chan = [];
  closed = false;
  upgraded = [];
  sent = [];
  accepted = [];
  dropped = [];
}
