-- ===== src/Calibration/Dicts.antt =====
-- src/fm_robot_agent/calibration.py: a lens and a mount as the JSON that is stored.
use fm_robot_agent.Prelude.{List, [], ◌∷◌, codes}
use fm_robot_agent.Json.{Json, int, float, str, arr, obj, Items, nil, cons, Fields, end, field}
use fm_robot_agent.Calibration.{Lens, Mount}

-- Stored under the keys in their order, as `json.dumps(…, sort_keys=True)` has them.
unfoldable pub floats_json : {F : Type 0} → List F → Items F
floats_json [] = nil
floats_json (x ∷ xs) = cons (float x) (floats_json xs)

unfoldable pub lens_dict : {F : Type 0} → Lens F → Fields F
unfolding floats_json
lens_dict lens =
    (field (codes "cx") (float lens.cx) (
      field (codes "cy") (float lens.cy) (
        field (codes "distortion") (arr (floats_json lens.distortion)) (
          field (codes "fx") (float lens.fx) (
            field (codes "fy") (float lens.fy) (
              field (codes "height") (int lens.height) (
                field (codes "model") (str lens.model) (
                  field (codes "rms_px") (float lens.rms_px)
                    (field (codes "width") (int lens.width) end)))))))))

unfoldable pub lens_json : {F : Type 0} → Lens F → Json F
lens_json lens = obj (lens_dict lens)

unfoldable pub mount_dict : {F : Type 0} → Mount F → Fields F
unfolding floats_json
mount_dict mount =
    (field (codes "parent") (str mount.parent) (
      field (codes "rpy") (arr (floats_json mount.rpy))
        (field (codes "xyz") (arr (floats_json mount.xyz)) end)))

unfoldable pub mount_json : {F : Type 0} → Mount F → Json F
mount_json mount = obj (mount_dict mount)
