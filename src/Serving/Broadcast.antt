-- ===== src/Serving/Broadcast.antt =====
-- The live stream: a queue of at most fifty messages for each client, and the broadcast to all of them.
pub mod Bounded
pub mod Ordered
use weather_demand_forecast.Prelude.{
  ℕ, zero, suc, ◌+◌, Bool, true, false, not, List, [], ◌∷◌, ◌++◌, Option, none, some, filter,
  length, ltb, ◌==◌, ℕ_eq, if◌then◌else◌,
}

-- asyncio.Queue(maxsize=50), by the identity of the queue; what its client has been sent
pub record Client (A : Type 0) : Type 0 where
  pub id : ℕ
  pub queue : List A
  pub sent : List A

abbrev pub maxsize : ℕ
maxsize = 50

module _ {A : Type 0} where
  -- q.put_nowait(msg), which raises QueueFull
  unfoldable pub put_nowait : A → Client A → Option (Client A)
  put_nowait msg q =
      if ltb (length q.queue) maxsize then some (record q { queue = q.queue ++ msg ∷ [] }) else none

  -- the subscribers after the puts, and the queues that were full
  unfoldable pub put_all : A → List (Client A) → List (Client A) × List ℕ
  unfolding put_nowait
  put_all msg [] = ([], [])
  put_all msg (q ∷ qs) =
      let rest = put_all msg qs in
      elim (put_nowait msg q) [
        | none ↦ (q ∷ rest.0, q.id ∷ rest.1)
        | some q2 ↦ (q2 ∷ rest.0, rest.1)
      ]

  abbrev pub is_other : ℕ → Client A → Bool
  is_other id q = not (q.id == id)

  -- _state.ws_subscribers.discard(q) for each of them
  unfoldable pub discard_all : List ℕ → List (Client A) → List (Client A)
  unfolding filter
  discard_all [] subscribers = subscribers
  discard_all (d ∷ dead) subscribers = discard_all dead (filter (is_other d) subscribers)

  unfoldable pub broadcast : A → List (Client A) → List (Client A)
  unfolding put_all discard_all
  broadcast msg subscribers = let puts = put_all msg subscribers in discard_all puts.1 puts.0

  -- the head of the queue is sent
  unfoldable pub pop : List A → Client A → Client A
  pop [] q = q
  pop (msg ∷ rest) q = record q { queue = rest; sent = q.sent ++ msg ∷ [] }

  -- q.get() and ws.send_json(msg) of ws_live
  unfoldable pub deliver : Client A → Client A
  unfolding pop
  deliver q = pop q.queue q

  -- the accept and the disconnection of ws_live
  unfoldable pub connect : ℕ → List (Client A) → List (Client A)
  connect id subscribers = subscribers ++ record { id = id; queue = []; sent = [] } ∷ []

  unfoldable pub disconnect : ℕ → List (Client A) → List (Client A)
  unfolding filter
  disconnect id subscribers = filter (is_other id) subscribers

  unfoldable pub deliver_to : ℕ → List (Client A) → List (Client A)
  unfolding deliver
  deliver_to id [] = []
  deliver_to id (q ∷ qs) = (if q.id == id then deliver q else q) ∷ deliver_to id qs
