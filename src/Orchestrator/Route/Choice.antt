-- ===== src/Orchestrator/Route/Choice.antt =====
-- `RouteInfo` of internal/usecase/orchestrator/router.go against what `Route` does.
use agent_claw.Base.{◌≡◌, refl, ap, ◌≢◌, inl, inr, String, ◌⧺◌, Bool-cases, starts_with}
use text.Mathlib.TextPositions.{starts_with-append}
use agent_claw.Phase.Types.{World}
use agent_claw.Orchestrator.Route.{
  Env, is_broken_down, is_looped, by_hierarchy, by_loop, by_phases, route, route_info,
}

-- The text of the default names neither of the other two.
single-ne-hierarchical : (role : String) → "single-phase (role=" ⧺ role ⧺ ")" ≢ "hierarchical"
single-ne-hierarchical role h = cc (
  starts_with-append "single-phase (role=" (role ⧺ ")"),
  ap (λ s. starts_with s "single-phase (role=") h,
)

single-ne-loop : (role : String) → "single-phase (role=" ⧺ role ⧺ ")" ≢ "loop"
single-ne-loop role h = cc (
  starts_with-append "single-phase (role=" (role ⧺ ")"),
  ap (λ s. starts_with s "single-phase (role=") h,
)

-- `RouteInfo` names the orchestrator that `Route` takes: where it says "hierarchical" or "loop" the
-- result is that one's, and where it says neither it is that of a single run of the phases.
pub route_info-route :
    (e : Env) (w : World)
    → (route_info w.task ≡ "hierarchical" → route e w ≡ by_hierarchy e w)
      × (route_info w.task ≡ "loop" → route e w ≡ by_loop e w)
      × (route_info w.task ≢ "hierarchical"
          → route_info w.task ≢ "loop"
          → route e w ≡ by_phases e w)
unfolding route route_info
route_info-route e w = elim (Bool-cases (is_broken_down w.task)) [
  | inl down ↦ rw down (λ h. refl, λ h. cc (ap (λ s. starts_with s "h") h), λ h k. absurd (h refl))
  | inr up ↦ rw up (elim (Bool-cases (is_looped w.task)) [
    | inl looped ↦
        rw looped (λ h. cc (ap (λ s. starts_with s "h") h), λ h. refl, λ h k. absurd (k refl))
    | inr single ↦ rw single (
      λ h. absurd (single-ne-hierarchical w.task.agent_role h),
      λ h. absurd (single-ne-loop w.task.agent_role h),
      λ h k. refl,
    )
  ])
]
