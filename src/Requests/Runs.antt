-- ===== src/Requests/Runs.antt =====
-- Sequences of calls on a `RequestManager`, at any times, as a step relation.
use vincenzo.Prelude.{ℕ, ◌≡◌, ◌≢◌, Bool, false}
use vincenzo.Outcome.{ok}
use vincenzo.Requests.Manager.{
  RequestManager, Base, new, add_request, set_limit, unfulfill, in_flight,
}
use vincenzo.Requests.Completion.{
  fulfill_request, drain, clear, drain_qnt_queue, get_timeout_blocks_and_update,
}

module _ {T F32 F64 : Type 0} (base : Base T F32 F64) where
  -- A call, where `unfulfill` is called only on what `MayUndo` allows, and `clear` only if `MayClear`.
  pub data Step (MayUndo : T → RequestManager T F32 → Type 0) (MayClear : Type 0)
      : RequestManager T F32 → RequestManager T F32 → Type 0 where
    add :
        (now at : ℕ) (b : T) (m : RequestManager T F32)
        → Step MayUndo MayClear m (add_request base now at b m).0
    fulfill :
        (now : ℕ) (b : T) (m n : RequestManager T F32) (done : Bool)
        → fulfill_request base now b m ≡ ok (n, done)
        → Step MayUndo MayClear m n
    undo :
        (b : T) (m : RequestManager T F32)
        → MayUndo b m
        → Step MayUndo MayClear m (unfulfill base b m)
    give_back : (m : RequestManager T F32) → Step MayUndo MayClear m (drain base m).0
    reset : (m : RequestManager T F32) → MayClear → Step MayUndo MayClear m (clear base m)
    limit_to : (n : ℕ) (m : RequestManager T F32) → Step MayUndo MayClear m (set_limit base n m)
    take_queued :
        (n : ℕ) (m : RequestManager T F32) → Step MayUndo MayClear m (drain_qnt_queue base n m).0
    time_out :
        (now : ℕ) (m : RequestManager T F32)
        → Step MayUndo MayClear m (get_timeout_blocks_and_update base now m).0

  pub data Run (MayUndo : T → RequestManager T F32 → Type 0) (MayClear : Type 0)
      (m : RequestManager T F32) : RequestManager T F32 → Type 0 where
    here : Run MayUndo MayClear m m
    next :
        {n k : RequestManager T F32}
        → Run MayUndo MayClear m n
        → Step MayUndo MayClear n k
        → Run MayUndo MayClear m k

  abbrev pub AnyItem : T → RequestManager T F32 → Type 0
  AnyItem b m = Unit

  abbrev pub NotInFlight : T → RequestManager T F32 → Type 0
  NotInFlight b m = in_flight base b m ≡ false

  abbrev pub OtherThan : T → T → RequestManager T F32 → Type 0
  OtherThan req b m = b ≢ req

  -- what any calls make of a new manager
  abbrev pub Reach : RequestManager T F32 → Type 0
  Reach m = Run AnyItem Unit (new base) m

  -- what calls make of a new manager that never unfulfill an item while it is in flight
  abbrev pub KeptReach : RequestManager T F32 → Type 0
  KeptReach m = Run NotInFlight Unit (new base) m
