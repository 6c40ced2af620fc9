-- ===== src/App/Permission.antt =====
-- When the calls to a target are justified: `enforce` granted the action for the user and the secret.
use rustion.Prelude.{true, Option, none, some, [], ◌∷◌, Memᴰ}
use rustion.Casbin.Rules.{Uuid}
use rustion.App.World.{
  InternalUuids, Request, shell, exec, open_direct_tcpip, Call, open_channel, request_pty,
  request_shell, request_exec, send, send_eof, change_window, Trace, Event, enforced, called,
  replied, connected, recorder_made, recorded, logged, typed, started, wrote, request_failed,
}

-- `enforce` has granted the action.
unfoldable pub Granted : Option Uuid → Option Uuid → Uuid → Trace → Type 0
Granted (some u) (some o) a t = Memᴰ (enforced u o a true) t
Granted (some u) none a t = ⊥
Granted none o a t = ⊥

pub Granted-cons :
    (w o : Option Uuid) (a : Uuid) (e : Event) (t : Trace) → Granted w o a t → Granted w o a (e ∷ t)
unfolding Granted
Granted-cons (some u) (some o) a e t m = Memᴰ.tail m
Granted-cons (some u) none a e t m = m
Granted-cons none o a e t m = m

module _ (uuids : InternalUuids) where
  -- The action that a request wants.
  unfoldable pub action_for : Request → Uuid
  action_for shell = uuids.act_shell
  action_for (exec _) = uuids.act_exec
  action_for (open_direct_tcpip _ _ _ _) = uuids.act_direct_tcpip

  -- The action that a call wants; what is sent on an open channel wants none.
  unfoldable pub wants : Call → Option Uuid
  unfolding action_for
  wants (open_channel request) = some (action_for request)
  wants request_shell = some uuids.act_shell
  wants (request_exec _) = some uuids.act_exec
  wants (request_pty _ _ _) = none
  wants (send _) = none
  wants send_eof = none
  wants (change_window _) = none

  unfoldable pub Wanted : Option Uuid → Option Uuid → Option Uuid → Trace → Type 0
  unfolding Granted
  Wanted none w o t = Unit
  Wanted (some a) w o t = Granted w o a t

  -- An event is justified by what came before it.
  unfoldable pub Fits : Event → Trace → Type 0
  unfolding Wanted wants Granted
  Fits (called w o channel x) t = Wanted (wants x) w o t
  Fits (connected w o) t = (a : Uuid) × Granted w (some o) a t
  Fits (enforced _ _ _ _) t = Unit
  Fits (replied _ _) t = Unit
  Fits (recorder_made _ _) t = Unit
  Fits (recorded _ _) t = Unit
  Fits (logged _ _) t = Unit
  Fits (typed _) t = Unit
  Fits (started _) t = Unit
  Fits (wrote _ _) t = Unit
  Fits request_failed t = Unit

  -- Each shell, command and forwarding that reached a target, each channel opened for one, and each
  -- connection made, came after `enforce` granted it to that user for that secret of the target.
  unfoldable pub Justified : Trace → Type 0
  unfolding Fits
  Justified [] = Unit
  Justified (e ∷ t) = Fits e t × Justified t
