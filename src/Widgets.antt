-- ===== src/Widgets.antt =====
-- frontend/src/lib/WidgetStateManager.ts: the values of the widgets, and the forms they belong to.
-- `Values` has the protobuf values, `StateDict` the dictionary of widget states, `Manager` the
-- manager's state and the parts of its methods, `Accessors` its typed getters and setters and
-- `Submit` the submission of a form. The other modules prove.
pub mod Values
pub mod StateDict
pub mod Manager
pub mod Accessors
pub mod Buttons
pub mod Submit
pub mod Forms
pub mod Ops
pub mod RoundTrip
pub mod Dicts
pub mod Valid
pub mod Pending
pub mod Sending
pub mod Commit
pub mod Submission
pub mod Counts
mod Tests
