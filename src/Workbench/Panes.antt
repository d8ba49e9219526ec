-- ===== src/Workbench/Panes.antt =====
-- The panes of the workbench: `PaneLayout` of apps/perseval-app/src/workbench/state.rs and the pane
-- actions of model.rs.
use perseval.Base.{ℕ, Bool, false}
use perseval.Workbench.State.{PaneId, PaneLayout}

-- What the panes need of f32: whole sizes, and `clamp`; with the defaults of what is only stored.
pub record Platform (Size Onboarding Appearance : Type 0) : Type 0 where
  pub pixels : ℕ → Size
  pub clamp : Size → Size → Size → Size
  pub default_onboarding : Onboarding
  pub default_appearance : Appearance

unfoldable pub show_pane : {Size : Type 0} → PaneId → Bool → PaneLayout Size → PaneLayout Size
show_pane PaneId.primary_sidebar visible panes = record panes { primary_sidebar_visible = visible }
show_pane PaneId.inspector visible panes = record panes { inspector_visible = visible }
show_pane PaneId.bottom_panel visible panes = record panes { bottom_panel_visible = visible }

module _ {Size Onboarding Appearance : Type 0}
    (platform : Platform Size Onboarding Appearance) where
  unfoldable pub default_panes : PaneLayout Size
  default_panes = record {
    primary_sidebar_visible = false;
    inspector_visible = false;
    bottom_panel_visible = false;
    primary_sidebar_width = platform.pixels 280;
    inspector_width = platform.pixels 360;
    bottom_panel_height = platform.pixels 220;
  }

  unfoldable pub size_pane : PaneId → Size → PaneLayout Size → PaneLayout Size
  size_pane PaneId.primary_sidebar size panes = record panes {
    primary_sidebar_width = platform.clamp size (platform.pixels 220) (platform.pixels 480);
  }
  size_pane PaneId.inspector size panes = record panes {
    inspector_width = platform.clamp size (platform.pixels 280) (platform.pixels 640);
  }
  size_pane PaneId.bottom_panel size panes = record panes {
    bottom_panel_height = platform.clamp size (platform.pixels 140) (platform.pixels 520);
  }
