-- ===== src/Metrics/Format/Laws.antt =====
-- In which unit MetricsPage.tsx writes a metric.
use kafka_ui.Base.{◌≡◌, refl, true, false, Text, codes, includes, includes_trans}
use kafka_ui.Metrics.Format.{Numbers, format_seconds, format_metric_value}

milliseconds-seconds : includes (codes "milliseconds") (codes "seconds") ≡ true
unfolding includes
milliseconds-seconds = refl

-- A metric in milliseconds is written as seconds, a thousand times too large: its name holds
-- "seconds", which is asked for first. (Bytes and memory are asked for before both.)
pub milliseconds_as_seconds :
    (n : Numbers) (value : n.Number) (name : Text)
    → includes name (codes "milliseconds") ≡ true
    → includes name (codes "bytes") ≡ false
    → includes name (codes "memory") ≡ false
    → format_metric_value n value name ≡ format_seconds n value
unfolding format_metric_value
milliseconds_as_seconds n value name ms nb nm =
    let s : includes name (codes "seconds") ≡ true =
      includes_trans name (codes "milliseconds") (codes "seconds") ms milliseconds-seconds in
    rw (nb, nm, s) refl
