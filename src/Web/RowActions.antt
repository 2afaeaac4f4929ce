-- ===== src/Web/RowActions.antt =====
-- Which actions apps/web/src/components/ContainerTable.tsx and ContainerInspectDrawer.tsx offer for a
-- container: the buttons of a row, its menu, and the buttons of the drawer.
pub mod Offers
use docksight.Base.{String, Bool, true, false, not, ◌&&◌, ◌||◌, Option, none, some, or_else, ◌==◌}
use docksight.Text.{concat, starts_with}
use docksight.Protocol.Container.{ContainerAction, start, stop, restart, remove, pause, unpause}

-- What the buttons read: the container's state, whether a command of it is under way, whether there is
-- an `onAction`, and `canManage`.
pub record Controls : Type 0 where
  pub running : Bool
  pub paused : Bool
  pub row_busy : Bool
  pub has_action : Bool
  pub can_manage : Bool

-- `busyKey?.startsWith(`${container.id}:`) ?? false`
unfoldable pub is_row_busy : Option String → (container_id : String) → Bool
unfolding starts_with
is_row_busy none id = false
is_row_busy (some key) id = starts_with (concat id ":") key

-- The controls of a row, and of its menu; `lower` is toLowerCase.
unfoldable pub row_controls :
    (lower : String → String)
    → (state : String) → (row_busy has_action can_manage : Bool) → Controls
row_controls lower state row_busy has_action can_manage = record {
  running = lower state == "running";
  paused = lower state == "paused";
  row_busy = row_busy;
  has_action = has_action;
  can_manage = can_manage;
}

-- The state of an inspection.
pub record InspectedState : Type 0 where
  pub running : Bool
  pub paused : Bool

abbrev running_of : Option InspectedState → Option Bool
running_of none = none
running_of (some s) = some s.running

abbrev paused_of : Option InspectedState → Option Bool
paused_of none = none
paused_of (some s) = some s.paused

-- The controls of the drawer, which prefers the inspection to the list.
unfoldable pub drawer_controls :
    Option InspectedState → (state : String) → (row_busy has_action can_manage : Bool) → Controls
drawer_controls details state row_busy has_action can_manage = record {
  running = or_else (running_of details) (state == "running");
  paused = or_else (paused_of details) (state == "paused");
  row_busy = row_busy;
  has_action = has_action;
  can_manage = can_manage;
}

-- A button that is there and not disabled, in a row,
unfoldable pub row_enables : Controls → ContainerAction → Bool
row_enables c start =
    not (c.running || c.paused || c.row_busy || not c.has_action || not c.can_manage)
row_enables c stop = not (not c.running || c.row_busy || not c.has_action || not c.can_manage)
row_enables c restart = not (not c.running || c.row_busy || not c.has_action || not c.can_manage)
row_enables c remove = false
row_enables c pause = false
row_enables c unpause = false

-- in the menu of a row,
unfoldable pub menu_enables : Controls → ContainerAction → Bool
menu_enables c start = c.has_action && not (c.running || not c.can_manage)
menu_enables c stop = c.has_action && not (not c.running || not c.can_manage)
menu_enables c restart = c.has_action && not (not c.running || not c.can_manage)
menu_enables c pause = c.has_action && c.running && not (not c.can_manage)
menu_enables c unpause = c.has_action && c.paused && not (not c.can_manage)
menu_enables c remove = not (not c.has_action || not c.can_manage)

-- and in the drawer.
unfoldable pub drawer_enables : Controls → ContainerAction → Bool
drawer_enables c start =
    not (c.running || c.paused || c.row_busy || not c.has_action || not c.can_manage)
drawer_enables c stop = not (not c.running || c.row_busy || not c.has_action || not c.can_manage)
drawer_enables c restart = not (not c.running || c.row_busy || not c.has_action || not c.can_manage)
drawer_enables c pause =
    c.running && not c.paused && not (c.row_busy || not c.has_action || not c.can_manage)
drawer_enables c unpause = c.paused && not (c.row_busy || not c.has_action || not c.can_manage)
drawer_enables c remove = not (c.row_busy || not c.has_action || not c.can_manage)
