-- ===== src/Commands/Ls/Filter/Syntax.antt =====
-- Filters as they are written are read back.
use p2box.Base.{◌≡◌, refl, Text, codes, List, [], ◌∷◌, ◌++◌}
use p2box.Go.{ok}
use p2box.Commands.Ls.Filter.{FilterOptions, no_filters, filters_from, parse_filters}

pub data Filter : Type 0 where
  by_driver by_state by_name by_label : Text → Filter

abbrev pub written : Filter → Text
written (by_driver value) = codes "driver" ++ (b'=' ∷ value)
written (by_state value) = codes "state" ++ (b'=' ∷ value)
written (by_name value) = codes "name" ++ (b'=' ∷ value)
written (by_label value) = codes "label" ++ (b'=' ∷ value)

abbrev pub written_all : List Filter → List Text
written_all [] = []
written_all (f ∷ filters) = written f ∷ written_all filters

-- One filter more, behind those of its kind.
abbrev pub with_filter : Filter → FilterOptions → FilterOptions
with_filter (by_driver value) o = record o { driver_name = o.driver_name ++ (value ∷ []) }
with_filter (by_state value) o = record o { state = o.state ++ (value ∷ []) }
with_filter (by_name value) o = record o { name = o.name ++ (value ∷ []) }
with_filter (by_label value) o = record o { labels = o.labels ++ (value ∷ []) }

abbrev pub with_all : List Filter → FilterOptions → FilterOptions
with_all [] o = o
with_all (f ∷ filters) o = with_all filters (with_filter f o)

filters_from-written_all :
    (filters : List Filter) (o : FilterOptions)
    → filters_from (written_all filters) o ≡ ok (with_all filters o)
unfolding filters_from
filters_from-written_all [] o = refl
filters_from-written_all (by_driver value ∷ filters) o = filters_from-written_all filters _
filters_from-written_all (by_state value ∷ filters) o = filters_from-written_all filters _
filters_from-written_all (by_name value ∷ filters) o = filters_from-written_all filters _
filters_from-written_all (by_label value ∷ filters) o = filters_from-written_all filters _

-- Filters that are written with the keys "driver", "state", "name" and "label" are read into the
-- lists of these kinds, in their order, whatever bytes their values have.
pub parse_filters-written_all :
    (filters : List Filter) → parse_filters (written_all filters) ≡ ok (with_all filters no_filters)
unfolding parse_filters
parse_filters-written_all filters = filters_from-written_all filters no_filters
