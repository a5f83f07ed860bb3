-- ===== src/PlcSeries.antt =====
-- src/plc_series.rs. The models are declared for later use, and nothing uses them.
use melsec_mc.Prelude.{String, Option, none, some, ◌||◌, str_eq, if◌then◌else◌}

pub data PlcSeries : Type 0 where
  q r : PlcSeries

pub from_str : String → Option PlcSeries
from_str s =
    if str_eq s "Q" || str_eq s "q"
    then some q
    else if str_eq s "R" || str_eq s "r"
    then some r
    else none

unfoldable pub as_str : PlcSeries → String
as_str q = "Q"
as_str r = "R"

pub data MelsecQSeriesModelName : Type 0 where
  q100udehcpu q50udehcpu q26udehcpu q26udhcpu q20udehcpu : MelsecQSeriesModelName
  q20udhcpu q13udehcpu q13udhcpu q10udehcpu q10udhcpu : MelsecQSeriesModelName
  q06udehcpu q06udhcpu q04udehcpu q04udhcpu q03udecpu : MelsecQSeriesModelName
  q03udcpu q02ucpu q01ucpu q00ucpu q00ujcpu : MelsecQSeriesModelName

pub data MelsecRSeriesModelName : Type 0 where
  r00cpu r01cpu r02cpu r04cpu r08cpu : MelsecRSeriesModelName
  r16cpu r32cpu r120cpu r04encpu r08encpu : MelsecRSeriesModelName
  r16encpu r32encpu r120encpu r08pcpu r16pcpu : MelsecRSeriesModelName
  r32pcpu r120pcpu : MelsecRSeriesModelName
