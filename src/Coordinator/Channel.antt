-- ===== src/Coordinator/Channel.antt =====
-- control.go: the channel of requests, with the goroutine of `Start` at one end and the goroutines that
-- call `Request` and `RequestReply` at the other. They take their steps in any order. The loop gets past
-- a request only if the calls that its handler makes end (Control/Ends).
pub mod Laws
pub mod Progress
pub mod Invariant
pub mod Numbers
use konk.Base.{ℕ, ◌+◌, List, [], ◌∷◌, ◌++◌, ◌≡◌, true, Fallible}
use mathlib.Core.List.{Permᴰ}
use konk.Nymph.Client.{Transport}
use konk.Coordinator.NymphSet.Bits.{BitSet}
use konk.Coordinator.Control.{Control, Args, Reply, handle, request_failed}
use konk.Coordinator.Control.Ends.{ends}

-- A channel is the number of channels made before it.
pub record Request : Type 0 where
  pub args : Args
  pub reply : Reply
  pub err : ℕ

-- What a caller returns, with what its reply then points to.
pub record Answer : Type 0 where
  pub request : Request
  pub reply : Reply
  pub error : Fallible

-- The loop is at its receive, has a request to handle, or is at the send of an error.
pub data Loop : Type 0 where
  idle : Loop
  handling : Request → Loop
  answering : Request → Reply → Fallible → Loop

module _ (B : BitSet) (T : Transport) where
  -- The callers at the send of their request, those at the receive of their error, and those that have
  -- returned, the last one first.
  pub record System : Type 0 where
    pub control : Control B
    pub world : T.World
    pub channels : ℕ
    pub asking : List Request
    pub waiting : List Request
    pub loop : Loop
    pub returned : List Answer

  abbrev pub fresh_system : Control B → T.World → System
  fresh_system c w = record {
    control = c;
    world = w;
    channels = 0;
    asking = [];
    waiting = [];
    loop = idle;
    returned = [];
  }

  -- A call makes a channel, and is at its send.
  abbrev pub new_request : Args → Reply → System → Request
  new_request args reply s = record { args = args; reply = reply; err = s.channels }

  unfoldable pub ask : Request → System → System
  ask r s = record s { channels = s.channels + 1; asking = r ∷ s.asking }

  -- The channel has no buffer: the caller goes on when the loop takes its request.
  unfoldable pub receive : Request → List Request → System → System
  receive r others s = record s { asking = others; waiting = r ∷ s.waiting; loop = handling r }

  unfoldable pub serve : Request → System → System
  serve r s =
      let o = handle B T s.control s.world r.args r.reply in
      record s { control = o.control; world = o.world; loop = answering r o.reply o.error }

  unfoldable pub answer : Request → List Request → Reply → Fallible → System → System
  answer q others reply e s = record s {
    waiting = others;
    loop = idle;
    returned = record { request = q; reply = reply; error = request_failed B T e } ∷ s.returned;
  }

  -- A step, and the requests that it adds. Any caller at the channel can be next; an error goes to a
  -- caller that waits at the channel of the request.
  pub data Step (s : System) : List Request → System → Type 0 where
    calls :
        (args : Args) (reply : Reply)
        → Step s (new_request args reply s ∷ []) (ask (new_request args reply s) s)
    receives :
        (r : Request) (others : List Request)
        → s.loop ≡ idle
        → Permᴰ s.asking (r ∷ others)
        → Step s [] (receive r others s)
    -- A handler whose calls do not end keeps the loop at its request for ever.
    handles :
        (r : Request)
        → s.loop ≡ handling r
        → ends B T s.control s.world r.args ≡ true
        → Step s [] (serve r s)
    answers :
        (r q : Request) (others : List Request) (reply : Reply) (e : Fallible)
        → s.loop ≡ answering r reply e
        → Permᴰ s.waiting (q ∷ others)
        → q.err ≡ r.err
        → Step s [] (answer q others reply e s)
    -- The nymphs and all else go on.
    world_moves : (w : T.World) → Step s [] (record s { world = w })

  -- A run, with its requests, the last one first.
  pub data Run (s : System) : List Request → System → Type 0 where
    here : Run s [] s
    later : {rs qs : List Request} {t u : System} → Run s rs t → Step t qs u → Run s (qs ++ rs) u
