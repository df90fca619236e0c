-- ===== src/Adc/Tests.antt =====
-- Texts and numbers at which the theorems on the ADC formats are applied.
use go_dcpp.Adc.Escape.{escape, unescape, unescape-escape}
use go_dcpp.Adc.Feature.{feature_eq}
use go_dcpp.Base.{◌≡◌, nat_eq, list_eq, codes}

unescape-escape_example : unescape (escape (codes "a b\\")) ≡ codes "a b\\"
unescape-escape_example = unescape-escape (codes "a b\\")
