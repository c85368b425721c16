-- ===== src/Commands/Gap/Results.antt =====
-- Searching the devices that discovery events have brought.
use btptester_core.Stack.{Stack}
use btptester_core.Gap.{Gap}
