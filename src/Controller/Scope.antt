-- ===== src/Controller/Scope.antt =====
-- `selected` and `selectedEnrollment` of internal/controller/controller.go: the zones that the configuration
-- includes.
use dnssec_keyrotation.Base.{
  String, Bool, not, ◌&&◌, ◌||◌, List, map, nat_eq, string_eq, ◌==◌, contains,
}
use dnssec_keyrotation.Base.Text.{to_lower, trim_dot}
use dnssec_keyrotation.Config.{Config}
use dnssec_keyrotation.Controller.Prepublish.{is_empty}

-- `strings.TrimSuffix(strings.ToLower(zone), ".")`
unfoldable pub zone_form : String → String
zone_form zone = trim_dot (to_lower zone)

-- Lists the zone, whatever its case and with or without the final dot.
unfoldable pub lists_zone : List String → String → Bool
unfolding zone_form contains
lists_zone names zone = contains (map zone_form names) (zone_form zone)

-- the rule that `selected` and `selectedEnrollment` share: exclusion wins, and no inclusion is all
unfoldable pub in_scope : List String → List String → String → Bool
unfolding lists_zone
in_scope excluded included zone =
    not (lists_zone excluded zone) && (is_empty included || lists_zone included zone)

-- `selected`
unfoldable pub selected : Config → String → Bool
unfolding in_scope
selected cfg zone = in_scope cfg.rotation.exclude_zones cfg.rotation.include_zones zone

-- `selectedEnrollment`
unfoldable pub selected_enrollment : Config → String → Bool
unfolding selected
selected_enrollment cfg zone =
    cfg.enrollment.scope == "all_selected"
    && selected cfg zone
    && in_scope cfg.enrollment.exclude_zones cfg.enrollment.include_zones zone
