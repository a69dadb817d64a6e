-- ===== src/Client/Infos/Worn.antt =====
-- The costume that a puppet wears after a packet about it.
use smoo_bazel.Base.{◌≡◌, refl, some, c_str, Fits, strcpy-Fits}
use smoo_bazel.Puppets.Info.{costume_size, PuppetInfo}
use smoo_bazel.Puppets.Costume.{
  try_get_puppet_cap_name, try_get_puppet_body_name, try_get_puppet_cap_name-Shown,
  try_get_puppet_body_name-Shown, Shown,
}
use smoo_bazel.Packets.{CostumeInf}
use smoo_bazel.Client.Infos.{edit_costume_inf}

-- A costume packet whose names fit gives the puppet the cap and the body of the packet where these are
-- listed, and the plain costume where they are not: the models that are loaded are always listed ones.
pub edit_costume_inf-Shown :
    (m : CostumeInf) (x : PuppetInfo)
    → Fits costume_size m.body_model
    → Fits costume_size m.cap_model
    → (y : PuppetInfo) × (edit_costume_inf m x ≡ some y)
      × Shown (c_str m.cap_model) (try_get_puppet_cap_name y)
      × Shown (c_str m.body_model) (try_get_puppet_body_name y)
unfolding edit_costume_inf
edit_costume_inf-Shown m x body cap =
    let y : PuppetInfo = record x {
      costume_body = c_str m.body_model;
      costume_head = c_str m.cap_model;
    } in
    (
      y,
      rw (strcpy-Fits costume_size m.body_model body, strcpy-Fits costume_size m.cap_model cap)
          refl,
      try_get_puppet_cap_name-Shown y,
      try_get_puppet_body_name-Shown y,
    )
