-- ===== src/Types/Bytes/Tests.antt =====
-- `formatBytes` at the borders of its units.
use restic_ui.Base.{◌≡◌, refl}
use restic_ui.Base.Text.{codes, decimal}
use restic_ui.Types.Bytes.{format_bytes, whole}
use restic_ui.Types.Bytes.Laws.{Shown, format_bytes-Shown}

bytes : format_bytes (whole 1023) ≡ codes "1023 B"
unfolding format_bytes decimal
bytes = refl

below_ten : format_bytes (whole 1536) ≡ codes "1.5 KiB"
unfolding format_bytes decimal
below_ten = refl

above_largest : format_bytes (whole 5497558138880000) ≡ codes "5000 TiB"
unfolding format_bytes decimal
above_largest = refl

rounded_to_1024 : format_bytes (whole 1048575) ≡ codes "1024 KiB"
unfolding format_bytes decimal
rounded_to_1024 = refl

format_bytes-Shown_example : Shown 1536 (format_bytes (whole 1536))
format_bytes-Shown_example = format_bytes-Shown 1536
