-- ===== src/Dashboard/View.antt =====
-- What `State.snapshot` of tools/bst_dashboard/model.py shows.
use xfce_linux.Base.{
  ℕ, ◌-◌, ◌≤◌, ◌≡◌, List, Bool, false, [], ◌++◌, Text, length, take, take-append-drop, length-drop,
  arith,
}
use xfce_linux.Dashboard.Types.{State, snapshot}
use xfce_linux.Dashboard.Updates.{pipeline_done, root_causes}

-- A snapshot holds the last 60 completed builds and the last 80 recent lines, in their order, and
-- fewer only if there are not so many.
pub snapshot_windows :
    (now : ℕ) (running : Bool) (info : List (Text × Text)) (s : State)
    → let v = snapshot now running info s in
      (length v.completed ≤ 60)
      × (take (length s.completed - 60) s.completed ++ v.completed ≡ s.completed)
      × (length v.recent ≤ 80)
      × (take (length s.recent_lines - 80) s.recent_lines ++ v.recent ≡ s.recent_lines)
unfolding snapshot
snapshot_windows now running info s = (
  omega (arith, length-drop (length s.completed - 60) s.completed),
  take-append-drop (length s.completed - 60) s.completed,
  omega (arith, length-drop (length s.recent_lines - 80) s.recent_lines),
  take-append-drop (length s.recent_lines - 80) s.recent_lines,
)

-- After a Pipeline Summary a snapshot shows no active job, is not live, and its elapsed time no
-- longer depends on the clock.
pub snapshot-pipeline_done :
    (ended now now' : ℕ) (line : Text) (running : Bool) (info : List (Text × Text)) (s : State)
    → let t = pipeline_done ended line s in
      ((snapshot now running info t).active ≡ [])
      × ((snapshot now running info t).live ≡ false)
      × ((snapshot now running info t).elapsed ≡ (snapshot now' running info t).elapsed)
unfolding pipeline_done snapshot root_causes
snapshot-pipeline_done ended now now' line running info s = ground arith
