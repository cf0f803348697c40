-- ===== src/Startup/Banner.antt =====
-- The lines that each `main` prints on the console: the identity of the device, in the form of a JSON
-- document or nearly so, and messages with a time.
pub mod Documents
use uwb_apps.Prelude.{ℕ, ◌/◌, ◌%◌, ◌^◌, ◌-◌, [], ◌∷◌, ◌++◌, concat, leb, ◌&&◌, if◌then◌else◌}
use uwb_apps.Text.{Text, codes, dec, hex_upper}
use uwb_apps.Startup.{Device}

abbrev pub part_id : Device → ℕ
part_id d = d.euid % 2 ^ 32

abbrev pub lot_id : Device → ℕ
lot_id d = d.euid / 2 ^ 32 % 2 ^ 32

-- The five lines of apps/rtdoa_node and apps/twr_nranges_tdma.
unfoldable pub banner : Device → Text
unfolding hex_upper
banner d = concat (
    codes "{\"device_id\":\""
    ∷ hex_upper d.device_id
    ∷ codes "\",\"panid\":\""
    ∷ hex_upper d.pan_id
    ∷ codes "\",\"addr\":\""
    ∷ hex_upper d.uid
    ∷ codes "\",\"part_id\":\""
    ∷ hex_upper (part_id d)
    ∷ codes "\",\"lot_id\":\""
    ∷ hex_upper (lot_id d)
    ∷ codes "\"}\n"
    ∷ [])

-- The lines of the six with `=` behind the names: `role` is what apps/twr_node_tdma prints after the first,
-- and nothing in apps/twr_tag_tdma, apps/twr_aloha, apps/streaming, apps/tdoa_tag and apps/rtdoa_tag.
unfoldable pub banner_with : Text → Device → Text
unfolding hex_upper
banner_with role d = concat (
    codes "{\"device_id\"=\""
    ∷ hex_upper d.device_id
    ∷ codes "\""
    ∷ role
    ∷ codes ",\"panid=\""
    ∷ hex_upper d.pan_id
    ∷ codes "\",\"addr\"=\""
    ∷ hex_upper d.uid
    ∷ codes "\",\"part_id\"=\""
    ∷ hex_upper (part_id d)
    ∷ codes "\",\"lot_id\"=\""
    ∷ hex_upper (lot_id d)
    ∷ codes "\"}\n"
    ∷ [])

-- `,"role="%X"`
abbrev pub role_text : Device → Text
role_text d = codes ",\"role=\"" ++ (hex_upper d.role ++ codes "\"")

-- The same lines in apps/listener.
unfoldable pub banner_listener : Device → Text
unfolding hex_upper
banner_listener d = concat (
    codes "{\"device_id\"=\""
    ∷ hex_upper d.device_id
    ∷ codes "\",\"PANID=\""
    ∷ hex_upper d.pan_id
    ∷ codes "\",\"addr\"=\""
    ∷ hex_upper d.uid
    ∷ codes "\",\"partID\"=\""
    ∷ hex_upper (part_id d)
    ∷ codes "\",\"lotID\"=\""
    ∷ hex_upper (lot_id d)
    ∷ codes "\"}\n"
    ∷ [])

-- `{"utime": %lu,"exec": "%s"}` with the name of the source file.
unfoldable pub exec_line : Device → Text → Text
exec_line d file =
    concat (codes "{\"utime\": " ∷ dec d.utime ∷ codes ",\"exec\": \"" ∷ file ∷ codes "\"}\n" ∷ [])

-- `{"utime": %lu,"msg": "… = %d usec"}`
unfoldable pub usec_line : Device → Text → ℕ → Text
usec_line d name n = concat (
    codes "{\"utime\": "
    ∷ dec d.utime
    ∷ codes ",\"msg\": \""
    ∷ name
    ∷ codes " = "
    ∷ dec n
    ∷ codes " usec\"}\n"
    ∷ [])

-- `{"utime": %lu,"msg": "… = 0x%X"}`
unfoldable pub id_line : Device → Text → ℕ → Text
unfolding hex_upper
id_line d name n = concat (
    codes "{\"utime\": "
    ∷ dec d.utime
    ∷ codes ",\"msg\": \""
    ∷ name
    ∷ codes " = 0x"
    ∷ hex_upper n
    ∷ codes "\"}\n"
    ∷ [])
